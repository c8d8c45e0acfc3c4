-- ===== src/Invariant/Rt/Callbacks.antt =====
-- The callbacks other than `lunar_sched_switch` keep the realtime flags and their count.
use lunar_sched.Base.{
  ℕ, ◌≡◌, refl, inl, inr, Bool, true, Option, none, some, arith, Option-cases, if_cases, ◌==◌,
  if◌then◌else◌,
}
use lunar_sched.Base.Int.{ℤ, pos, negsuc}
use lunar_sched.Boost.{Context, record_wake_by, record_waker}
use lunar_sched.Callbacks.Wakeup.{
  boost_if, stamp_empty, kick_target, enqueue_at, enqueue_resume, enqueue_place, enqueue_known,
  runnable_slept, lunar_select_cpu, lunar_enqueue, lunar_quiescent, lunar_runnable, has_flag,
  scx_enq_wakeup, scx_wake_ttwu, scx_deq_sleep,
}
use lunar_sched.Cpus.{get_task_ctx, get_dispatch_ctx, cpu_taken_by_rt, cpu_is_online}
use lunar_sched.Datatypes.{Task, TaskCtx, DispatchCtx, PickScratch}
use lunar_sched.Dsq.{stamp_tier_head_ts}
use lunar_sched.Invariant.Rt.{
  SameRt, SameRt-refl, emit-SameRt, put_task-SameRt, put_cpu-SameRt, modify_cpu-SameRt,
}
use lunar_sched.Kernel.{Machine, World, pick_idle}
use lunar_sched.Placement.{Picked, balance, pick_busy, pick_enqueue_cpu, cpu_load_ahead}

boost_if-SameRt :
    (wakeup : Bool) (c : Context) (p : Task) (w : World) → SameRt w (boost_if wakeup c p w)
unfolding boost_if
boost_if-SameRt wakeup c p w = elim (Option-cases (get_task_ctx w p)) [
  | inl e ↦ rw (e, boost_if) (SameRt-refl w)
  | inr (t, e) ↦
      rw (e, boost_if)
        (if_cases (SameRt w) wakeup _ _ (λ _. put_task-SameRt w _ _ w (SameRt-refl w))
          (λ _. SameRt-refl w))
]

pub lunar_select_cpu-SameRt :
    (m : Machine) (c : Context) (p : Task) (flags : ℕ) (w : World)
    → SameRt w (lunar_select_cpu m c p flags w).1
unfolding lunar_select_cpu
lunar_select_cpu-SameRt m c p flags w =
    let boosted = boost_if-SameRt (has_flag flags scx_wake_ttwu) c p w in
    record { count = ground (arith, boosted.count); flags = λ i. ground (arith, boosted.flags i) }

stamp_tier_head_ts-rt :
    (tier now : ℕ) (d : DispatchCtx) → (stamp_tier_head_ts tier now d).rt_busy ≡ d.rt_busy
unfolding stamp_tier_head_ts
stamp_tier_head_ts-rt tier now d = ground arith

stamp_empty-SameRt :
    (m : Machine) (tier cpu now : ℕ) (a w : World)
    → SameRt a w
    → SameRt a (stamp_empty m tier cpu now w)
unfolding stamp_empty
stamp_empty-SameRt m tier cpu now a w h =
    let stamped =
      modify_cpu-SameRt a cpu (stamp_tier_head_ts tier now) w (stamp_tier_head_ts-rt tier now) h in
    record {
      count = ground (arith, h.count, stamped.count);
      flags = λ i. ground (arith, h.flags i, stamped.flags i);
    }

kick_target-SameRt :
    (tier target flags : ℕ) (a w : World)
    → SameRt a w
    → SameRt a (kick_target tier target flags w (get_dispatch_ctx w target))
unfolding kick_target
kick_target-SameRt tier target flags a w h = elim (Option-cases (get_dispatch_ctx w target)) [
  | inl e ↦ rw (e, kick_target) (emit-SameRt a _ w h)
  | inr (d, e) ↦
      let pended = put_cpu-SameRt a target d (record d { preempt_pending = true }) w e refl h in
      rw (e, kick_target)
        (record {
          count = ground (arith, h.count);
          flags = λ i. ground (arith, h.flags i, pended.flags i);
        })
]

enqueue_at-SameRt :
    (m : Machine) (p : Task) (flags tier now cpu picked : ℕ) (a w : World)
    → SameRt a w
    → SameRt a (enqueue_at m p flags tier now cpu picked w)
unfolding enqueue_at
enqueue_at-SameRt m p flags tier now cpu picked a w h =
    let target : ℕ = if cpu_is_online m picked then picked else cpu in
    kick_target-SameRt tier target flags a _
      (emit-SameRt a _ _ (stamp_empty-SameRt m tier target now a w h))

balance-SameRt :
    (m : Machine) (p : Task) (t : TaskCtx) (tier cpu now load : ℕ) (a w : World)
    (o : Option PickScratch)
    → SameRt a w
    → SameRt a (balance m p t tier cpu now load w o).world
unfolding balance
balance-SameRt m p t tier cpu now load a w none h = h
balance-SameRt m p t tier cpu now load a w (some old) h = record {
  count = h.count;
  flags = h.flags;
}

pick_busy-SameRt :
    (m : Machine) (p : Task) (t : TaskCtx) (tier cpu now load : ℕ) (a w : World) (idle : ℤ)
    → SameRt a w
    → SameRt a (pick_busy m p t tier cpu now load w idle).world
unfolding pick_busy
pick_busy-SameRt m p t tier cpu now load a w (pos idle) h = h
pick_busy-SameRt m p t tier cpu now load a w (negsuc k) h =
    let moved = balance-SameRt m p t tier cpu now load a w w.scratch h in
    record {
      count = ground (arith, h.count, moved.count);
      flags = λ i. ground (arith, h.flags i, moved.flags i);
    }

pick_enqueue_cpu-SameRt :
    (m : Machine) (p : Task) (t : TaskCtx) (tier cpu now : ℕ) (a w : World)
    → SameRt a w
    → SameRt a (pick_enqueue_cpu m p t tier cpu now w).world
unfolding pick_enqueue_cpu
pick_enqueue_cpu-SameRt m p t tier cpu now a w h =
    let load : ℕ = cpu_load_ahead m w cpu tier in
    let idle : ℤ = m.idle_for w.trace p.address in
    if_cases (λ (r : Picked). SameRt a r.world) (load == 0) _ _ (λ _. emit-SameRt a _ w h)
      λ _.
        if_cases (λ (r : Picked). SameRt a r.world) (p.nr_cpus_allowed == 1) _ _ (λ _. h)
          λ _.
            pick_busy-SameRt m p t tier cpu now load a _ idle
              (emit-SameRt a (pick_idle p.address idle) w h)

enqueue_place-SameRt :
    (m : Machine) (p : Task) (t : TaskCtx) (flags tier now cpu : ℕ) (a w : World)
    → SameRt a w
    → SameRt a (enqueue_place m p t flags tier now cpu w)
unfolding enqueue_place
enqueue_place-SameRt m p t flags tier now cpu a w h =
    enqueue_at-SameRt m p flags tier now cpu _ a _
      (put_task-SameRt a _ _ _ (pick_enqueue_cpu-SameRt m p t tier cpu now a w h))

enqueue_known-SameRt :
    (m : Machine) (p : Task) (t : TaskCtx) (flags tier now cpu : ℕ) (a w : World)
    → SameRt a w
    → SameRt a (enqueue_known m p t flags tier now cpu w)
unfolding enqueue_known enqueue_resume
enqueue_known-SameRt m p t flags tier now cpu a w h =
    if_cases (SameRt a) (t.resume_slice == 0) _ _
      (λ _. enqueue_place-SameRt m p t flags tier now cpu a w h)
      λ _.
        if_cases (SameRt a) (cpu_taken_by_rt m w cpu) _ _
          (λ _. enqueue_place-SameRt m p _ flags tier now cpu a w h)
          λ _. emit-SameRt a _ _ (stamp_empty-SameRt m tier cpu now a _ (put_task-SameRt a _ _ w h))

pub lunar_enqueue-SameRt :
    (m : Machine) (c : Context) (p : Task) (flags : ℕ) (w : World)
    → SameRt w (lunar_enqueue m c p flags w)
unfolding lunar_enqueue
lunar_enqueue-SameRt m c p flags w =
    let boosted = boost_if-SameRt (has_flag flags scx_enq_wakeup) c p w in
    elim (Option-cases (get_task_ctx (boost_if (has_flag flags scx_enq_wakeup) c p w) p)) [
      | inl e ↦
          rw (e, lunar_enqueue)
            (enqueue_at-SameRt m p flags _ _ _ _ w _ (emit-SameRt w _ _ boosted))
      | inr (t, e) ↦
          rw (e, lunar_enqueue)
            (enqueue_known-SameRt m p t flags _ _ _ w _ (emit-SameRt w _ _ boosted))
    ]

pub lunar_quiescent-SameRt :
    (m : Machine) (p : Task) (flags : ℕ) (w : World) → SameRt w (lunar_quiescent m p flags w)
unfolding lunar_quiescent
lunar_quiescent-SameRt m p flags w = elim (Option-cases (get_task_ctx w p)) [
  | inl e ↦ rw (e, lunar_quiescent) (SameRt-refl w)
  | inr (t, e) ↦
      rw (e, lunar_quiescent)
        (if_cases (SameRt w) (has_flag flags scx_deq_sleep) _ _
          (λ _. put_task-SameRt w _ _ _ (emit-SameRt w _ w (SameRt-refl w)))
          (λ _. put_task-SameRt w _ _ w (SameRt-refl w)))
]

record_waker-SameRt :
    (c : Context) (p : Task) (now : ℕ) (a w : World)
    → SameRt a w
    → SameRt a (record_waker c p now w)
unfolding record_waker record_wake_by
record_waker-SameRt c p now a w h = record {
  count = ground (arith, h.count);
  flags = λ i. ground (arith, h.flags i);
}

runnable_slept-SameRt :
    (p : Task) (now : ℕ) (a w : World) → SameRt a w → SameRt a (runnable_slept p now w)
unfolding runnable_slept
runnable_slept-SameRt p now a w h = record {
  count = ground (arith, h.count);
  flags = λ i. ground (arith, h.flags i);
}

pub lunar_runnable-SameRt :
    (m : Machine) (c : Context) (p : Task) (flags : ℕ) (w : World)
    → SameRt w (lunar_runnable m c p flags w)
unfolding lunar_runnable
lunar_runnable-SameRt m c p flags w = elim (Option-cases (get_task_ctx w p)) [
  | inl e ↦ rw (e, lunar_runnable) (emit-SameRt w _ w (SameRt-refl w))
  | inr (t, e) ↦
      rw (e, lunar_runnable)
        (if_cases (SameRt w) (has_flag flags scx_enq_wakeup) _ _
          (λ _. runnable_slept-SameRt p _ w _ (
            record_waker-SameRt c p _ w _
              (put_task-SameRt w _ _ _ (emit-SameRt w _ w (SameRt-refl w)))))
          (λ _. runnable_slept-SameRt p _ w _ (emit-SameRt w _ w (SameRt-refl w))))
]
