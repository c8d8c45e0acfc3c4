-- ===== src/Invariant/Placing.antt =====
-- `lunar_select_cpu` and `lunar_enqueue` keep the contexts of all tasks valid.
use lunar_sched.Base.{
  ℕ, ◌≡◌, refl, inl, inr, Option, none, some, arith, Option-cases, if_cases, ◌==◌,
}
use lunar_sched.Base.Int.{ℤ, pos, negsuc}
use lunar_sched.Boost.{Context}
use lunar_sched.Callbacks.Wakeup.{
  boost_if, kick_target, enqueue_at, enqueue_resume, enqueue_place, enqueue_known, lunar_select_cpu,
  lunar_enqueue, has_flag, scx_enq_wakeup, scx_wake_ttwu,
}
use lunar_sched.Cpus.{get_task_ctx, cpu_taken_by_rt}
use lunar_sched.Datatypes.{Task, TaskCtx, DispatchCtx, PickScratch}
use lunar_sched.Invariant.Task.{IsValid, AllValid, migrate-IsValid}
use lunar_sched.Kernel.{Machine, World, pick_idle, emit}
use lunar_sched.Placement.{Picked, balance, pick_busy, pick_enqueue_cpu, cpu_load_ahead}
use lunar_sched.Invariant.Tasks.{
  put_task-AllValid, same_tasks, emit-AllValid, boost_if-AllValid, stamp_empty-AllValid,
}

pub lunar_select_cpu-AllValid :
    (m : Machine) (c : Context) (p : Task) (flags : ℕ) (w : World)
    → AllValid w
    → AllValid (lunar_select_cpu m c p flags w).1
unfolding lunar_select_cpu
lunar_select_cpu-AllValid m c p flags w all =
    same_tasks (boost_if (has_flag flags scx_wake_ttwu) c p w) _ (ground arith) boosted
  where
    boosted : AllValid (boost_if (has_flag flags scx_wake_ttwu) c p w)
    boosted = boost_if-AllValid _ c p w all

kick_target-AllValid :
    (tier target flags : ℕ) (w : World) (o : Option DispatchCtx)
    → AllValid w
    → AllValid (kick_target tier target flags w o)
unfolding kick_target
kick_target-AllValid tier target flags w none all = emit-AllValid _ w all
kick_target-AllValid tier target flags w (some d) all = same_tasks w _ (ground arith) all

enqueue_at-AllValid :
    (m : Machine) (p : Task) (flags tier now cpu picked : ℕ) (w : World)
    → AllValid w
    → AllValid (enqueue_at m p flags tier now cpu picked w)
unfolding enqueue_at
enqueue_at-AllValid m p flags tier now cpu picked w all =
    kick_target-AllValid tier _ flags _ _
      (emit-AllValid _ _ (stamp_empty-AllValid m tier _ now w all))

-- The choice of a cpu changes no context but that of its task, and there the time of migration.
record Picks (t : TaskCtx) (w : World) (r : Picked) : Type 0 where
  same : r.world.tasks ≡ w.tasks
  valid : IsValid t → IsValid r.tctx

stays : (t : TaskCtx) (w : World) (cpu : ℕ) → Picks t w (record { cpu = cpu; tctx = t; world = w })
stays t w cpu = record { same = refl; valid = λ v. v }

balance-Picks :
    (m : Machine) (p : Task) (t : TaskCtx) (tier cpu now load : ℕ) (w : World)
    (o : Option PickScratch)
    → Picks t w (balance m p t tier cpu now load w o)
unfolding balance
balance-Picks m p t tier cpu now load w none = record { same = refl; valid = λ v. v }
balance-Picks m p t tier cpu now load w (some old) = record {
  same = refl;
  valid = migrate-IsValid t cpu _ now;
}

pick_busy-Picks :
    (m : Machine) (p : Task) (t : TaskCtx) (tier cpu now load : ℕ) (w : World) (idle : ℤ)
    → Picks t w (pick_busy m p t tier cpu now load w idle)
unfolding pick_busy
pick_busy-Picks m p t tier cpu now load w (pos idle) = record {
  same = refl;
  valid = migrate-IsValid t cpu idle now;
}
pick_busy-Picks m p t tier cpu now load w (negsuc n) =
    ground (arith, stays t w cpu, balance-Picks m p t tier cpu now load w w.scratch)

pick_enqueue_cpu-Picks :
    (m : Machine) (p : Task) (t : TaskCtx) (tier cpu now : ℕ) (w : World)
    → Picks t w (pick_enqueue_cpu m p t tier cpu now w)
unfolding pick_enqueue_cpu
pick_enqueue_cpu-Picks m p t tier cpu now w =
    let load : ℕ = cpu_load_ahead m w cpu tier in
    let idle : ℤ = m.idle_for w.trace p.address in
    let w1 : World = emit (pick_idle p.address idle) w in
    let k = pick_busy-Picks m p t tier cpu now load w1 idle in
    record { same = ground (arith, k.same); valid = λ v. ground (arith, v, k.valid v) }

enqueue_place-AllValid :
    (m : Machine) (p : Task) (t : TaskCtx) (flags tier now cpu : ℕ) (w : World)
    → AllValid w
    → IsValid t
    → AllValid (enqueue_place m p t flags tier now cpu w)
unfolding enqueue_place
enqueue_place-AllValid m p t flags tier now cpu w all v =
    let k = pick_enqueue_cpu-Picks m p t tier cpu now w in
    enqueue_at-AllValid m p flags tier now cpu _ _
      (put_task-AllValid p.address _ _ (same_tasks w _ k.same all) (k.valid v))

unresumed : (t : TaskCtx) → IsValid t → IsValid (record t { resume_slice = 0 })
unresumed t v = omega arith

enqueue_known-AllValid :
    (m : Machine) (p : Task) (t : TaskCtx) (flags tier now cpu : ℕ) (w : World)
    → AllValid w
    → IsValid t
    → AllValid (enqueue_known m p t flags tier now cpu w)
unfolding enqueue_known enqueue_resume
enqueue_known-AllValid m p t flags tier now cpu w all v =
    if_cases AllValid (t.resume_slice == 0) _ _
      (λ _. enqueue_place-AllValid m p t flags tier now cpu w all v)
      λ _.
        if_cases AllValid (cpu_taken_by_rt m w cpu) _ _
          (λ _. enqueue_place-AllValid m p _ flags tier now cpu w all (unresumed t v))
          λ _.
            emit-AllValid _ _
              (stamp_empty-AllValid m tier cpu now _ (put_task-AllValid _ _ w all (unresumed t v)))

pub lunar_enqueue-AllValid :
    (m : Machine) (c : Context) (p : Task) (flags : ℕ) (w : World)
    → AllValid w
    → AllValid (lunar_enqueue m c p flags w)
unfolding lunar_enqueue
lunar_enqueue-AllValid m c p flags w all = elim (Option-cases (get_task_ctx w1 p)) [
  | inl e ↦
      rw (e, lunar_enqueue) (enqueue_at-AllValid m p flags _ _ _ _ _ (emit-AllValid _ _ boosted))
  | inr (t, e) ↦
      rw (e, lunar_enqueue)
        (enqueue_known-AllValid m p t flags _ _ _ _ (emit-AllValid _ _ boosted)
          (boosted.each p.address t e))
]
  where
    w1 : World
    w1 = boost_if (has_flag flags scx_enq_wakeup) c p w

    boosted : AllValid w1
    boosted = boost_if-AllValid _ c p w all
