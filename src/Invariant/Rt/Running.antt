-- ===== src/Invariant/Rt/Running.antt =====
-- The callbacks of a running cpu, but `lunar_sched_switch`, keep the realtime flags and their count.
use lunar_sched.Base.{
  ℕ, zero, suc, ◌+◌, ◌≡◌, refl, inl, inr, Bool, Option, none, some, List, [], ◌∷◌, arith,
  Option-cases, if_cases, ◌==◌,
}
use lunar_sched.Base.Int.{ℤ}
use lunar_sched.Boost.{Context, charge_override}
use lunar_sched.Callbacks.Init.{
  create_queues, init_queues, init_cpus, lunar_init, lunar_init_task, queues_of, reset_cpu,
}
use lunar_sched.Callbacks.Run.{
  continue_prev, dispatch_after, dispatch_prev, dispatch_fresh, dispatch_queued, run_on, stop_on,
  lunar_dispatch, lunar_running, lunar_stopping,
}
use lunar_sched.Cpus.{get_task_ctx, get_dispatch_ctx}
use lunar_sched.Datatypes.{Task, TaskCtx, DispatchCtx}
use lunar_sched.Defines.{dsq_type_empty}
use lunar_sched.Dispatch.Frame.{dispatch_dsq_per_cpu-Frame}
use lunar_sched.Dispatch.Order.{dispatch_dsq_per_cpu}
use lunar_sched.Invariant.Rt.{
  SameRt, SameRt-refl, SameRt-trans, emit-SameRt, put_task-SameRt, put_cpu-SameRt,
  modify_cpu-SameRt, Frame-SameRt,
}
use lunar_sched.Kernel.{Machine, World, create_dsq, emit}
use lunar_sched.Tier.{effective_tier}

dispatched :
    (m : Machine) (cpu tier : ℕ) (a w : World)
    → SameRt a w
    → SameRt a (dispatch_dsq_per_cpu m cpu tier w).1
dispatched m cpu tier a w h =
    SameRt-trans a w _ h (Frame-SameRt w _ (dispatch_dsq_per_cpu-Frame m cpu tier w))

continue_prev-SameRt :
    (p : Task) (t : TaskCtx) (cpu tier : ℕ) (a w : World)
    → SameRt a w
    → SameRt a (continue_prev p t cpu tier w)
unfolding continue_prev
continue_prev-SameRt p t cpu tier a w h =
    modify_cpu-SameRt a cpu _ _ (λ d. refl) (put_task-SameRt a _ _ _ (emit-SameRt a _ w h))

dispatch_after-SameRt :
    (m : Machine) (cpu : ℕ) (p : Task) (t : TaskCtx) (a w : World)
    → SameRt a w
    → SameRt a (dispatch_after m cpu p t w)
unfolding dispatch_after
dispatch_after-SameRt m cpu p t a w h =
    let r : ℕ × World = dispatch_dsq_per_cpu m cpu (effective_tier (some t)) w in
    let after : SameRt a r.1 = dispatched m cpu (effective_tier (some t)) a w h in
    if_cases (SameRt a) (r.0 == dsq_type_empty) _ _ (λ _. continue_prev-SameRt p t cpu _ a _ after)
      (λ _. after)

charge_override-rt :
    (d : DispatchCtx) (tier used : ℕ) → (charge_override d tier used).rt_busy ≡ d.rt_busy
unfolding charge_override
charge_override-rt d tier used = ground arith

dispatch_prev-SameRt :
    (m : Machine) (cpu : ℕ) (p : Task) (t : TaskCtx) (w : World)
    → SameRt w (dispatch_prev m cpu p t w)
unfolding dispatch_prev
dispatch_prev-SameRt m cpu p t w = dispatch_after-SameRt m cpu p _ w _ (
    put_task-SameRt w _ _ _ (
      modify_cpu-SameRt w cpu _ _ (λ d. charge_override-rt d _ _)
        (emit-SameRt w _ w (SameRt-refl w))))

dispatch_queued-SameRt :
    (m : Machine) (cpu : ℕ) (p : Task) (w : World) → SameRt w (dispatch_queued m cpu p w)
unfolding dispatch_queued dispatch_fresh
dispatch_queued-SameRt m cpu p w =
    let fresh = dispatched m cpu dsq_type_empty w w (SameRt-refl w) in
    elim (Option-cases (get_task_ctx w p)) [
      | inl e ↦ rw (e, dispatch_queued) (if_cases (SameRt w) p.queued _ _ (λ _. fresh) (λ _. fresh))
      | inr (t, e) ↦
          rw (e, dispatch_queued)
            (if_cases (SameRt w) p.queued _ _ (λ _. dispatch_prev-SameRt m cpu p t w) (λ _. fresh))
    ]

pub lunar_dispatch-SameRt :
    (m : Machine) (cpu : ℕ) (prev : Option Task) (w : World)
    → SameRt w (lunar_dispatch m cpu prev w)
unfolding lunar_dispatch dispatch_fresh
lunar_dispatch-SameRt m cpu none w = dispatched m cpu dsq_type_empty w w (SameRt-refl w)
lunar_dispatch-SameRt m cpu (some p) w = dispatch_queued-SameRt m cpu p w

pub lunar_running-SameRt :
    (m : Machine) (c : Context) (p : Task) (w : World) → SameRt w (lunar_running m c p w)
unfolding lunar_running run_on
lunar_running-SameRt m c p w = elim (Option-cases (get_task_ctx w p)) [
  | inl e ↦ rw (e, lunar_running) (SameRt-refl w)
  | inr (t, e) ↦ (elim (Option-cases (get_dispatch_ctx w c.cpu)) [
    | inl n ↦ rw (e, lunar_running) (rw (n, lunar_running) (SameRt-refl w))
    | inr (d, n) ↦
        rw (e, lunar_running)
          (rw (n, lunar_running)
            (put_task-SameRt w _ _ _
              (emit-SameRt w _ _ (put_cpu-SameRt w c.cpu d _ w n refl (SameRt-refl w)))))
  ])
]

stop_on-SameRt :
    (p : Task) (runnable : Bool) (t : TaskCtx) (now cpu : ℕ) (a w : World)
    → SameRt a w
    → SameRt a (stop_on p runnable t now cpu (get_dispatch_ctx w cpu) w)
unfolding stop_on
stop_on-SameRt p runnable t now cpu a w h = elim (Option-cases (get_dispatch_ctx w cpu)) [
  | inl e ↦ rw (e, stop_on) (put_task-SameRt a _ _ w h)
  | inr (d, e) ↦
      rw (e, stop_on)
        (put_cpu-SameRt a cpu d _ _ e (charge_override-rt d _ _) (put_task-SameRt a _ _ w h))
]

pub lunar_stopping-SameRt :
    (m : Machine) (p : Task) (runnable : Bool) (w : World)
    → SameRt w (lunar_stopping m p runnable w)
unfolding lunar_stopping
lunar_stopping-SameRt m p runnable w = elim (Option-cases (get_task_ctx w p)) [
  | inl e ↦ rw (e, lunar_stopping) (emit-SameRt w _ w (SameRt-refl w))
  | inr (t, e) ↦
      rw (e, lunar_stopping)
        (stop_on-SameRt p runnable t _ _ w _ (emit-SameRt w _ w (SameRt-refl w)))
]

pub lunar_init_task-SameRt :
    (m : Machine) (p : Task) (w : World) → SameRt w (lunar_init_task m p w).1
unfolding lunar_init_task
lunar_init_task-SameRt m p w = record { count = ground arith; flags = λ i. ground arith }

create_queues-SameRt :
    (m : Machine) (dsqs : List ℕ) (a w : World) → SameRt a w → SameRt a (create_queues m dsqs w).1
unfolding create_queues
create_queues-SameRt m [] a w h = h
create_queues-SameRt m (dsq ∷ dsqs) a w h =
    let ret : ℤ = m.creates w.trace dsq in
    let made = emit-SameRt a (create_dsq dsq ret) w h in
    let rest = create_queues-SameRt m dsqs a (emit (create_dsq dsq ret) w) made in
    record {
      count = ground (arith, h.count, rest.count);
      flags = λ i. ground (arith, h.flags i, rest.flags i);
    }

init_queues-SameRt :
    (m : Machine) (rounds cpu : ℕ) (a w : World)
    → SameRt a w
    → SameRt a (init_queues m rounds cpu w).1
unfolding init_queues
init_queues-SameRt m zero cpu a w h = h
init_queues-SameRt m (suc rounds) cpu a w h =
    let made = create_queues-SameRt m (queues_of cpu) a w h in
    let rest = init_queues-SameRt m rounds (cpu + 1) a (create_queues m (queues_of cpu) w).1 made in
    record {
      count = ground (arith, made.count, rest.count);
      flags = λ i. ground (arith, made.flags i, rest.flags i);
    }

init_cpus-SameRt :
    (m : Machine) (rounds cpu : ℕ) (a w : World)
    → SameRt a w
    → SameRt a (init_cpus m rounds cpu w).1
unfolding init_cpus reset_cpu
init_cpus-SameRt m zero cpu a w h = h
init_cpus-SameRt m (suc rounds) cpu a w h = elim (Option-cases (get_dispatch_ctx w cpu)) [
  | inl e ↦ rw (e, init_cpus) h
  | inr (d, e) ↦
      rw (e, init_cpus)
        (init_cpus-SameRt m rounds (cpu + 1) a _
          (put_cpu-SameRt a cpu d _ _ e refl (emit-SameRt a _ w h)))
]

pub lunar_init-SameRt : (m : Machine) (w : World) → SameRt w (lunar_init m w).1
unfolding lunar_init
lunar_init-SameRt m w =
    let queues = init_queues-SameRt m m.nr_cpu_ids 0 w w (SameRt-refl w) in
    let cpus = init_cpus-SameRt m m.nr_cpu_ids 0 w (init_queues m m.nr_cpu_ids 0 w).1 queues in
    record {
      count = ground (arith, queues.count, cpus.count);
      flags = λ i. ground (arith, queues.flags i, cpus.flags i);
    }
