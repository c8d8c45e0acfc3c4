-- ===== src/Invariant/Tasks.antt =====
-- The parts of the callbacks that write contexts keep the contexts of all tasks valid.
use lunar_sched.Base.{
  ℕ, ◌≡◌, refl, subst, inl, inr, Bool, arith, Bool-cases, Option-cases, if_cases, ◌==◌,
}
use lunar_sched.Boost.{Context}
use lunar_sched.Callbacks.Wakeup.{boost_if, stamp_empty}
use lunar_sched.Cpus.{get_task_ctx, get_dispatch_ctx, modify_cpu}
use lunar_sched.Datatypes.{Task, TaskCtx, DispatchCtx}
use lunar_sched.Invariant.Task.{IsValid, AllValid, apply_wake_boost-IsValid}
use lunar_sched.Dsq.{stamp_tier_head_ts}
use lunar_sched.Kernel.{Machine, World, Event, emit, put_cpu, put_task, drop_task}

pub put_task-AllValid :
    (a : ℕ) (t : TaskCtx) (w : World) → AllValid w → IsValid t → AllValid (put_task a t w)
put_task-AllValid a t w all v = record {
  each = λ b u e. elim (Bool-cases (a == b)) [
    | inl same ↦ subst IsValid (ground arith) v
    | inr other ↦ all.each b u (ground arith)
  ];
}

pub drop_task-AllValid : (a : ℕ) (w : World) → AllValid w → AllValid (drop_task a w)
drop_task-AllValid a w all = record {
  each = λ b u e. elim (Bool-cases (a == b)) [
    | inl same ↦ absurd (ground (arith, e))
    | inr other ↦ all.each b u (ground (arith, e))
  ];
}

pub same_tasks : (w w' : World) → w'.tasks ≡ w.tasks → AllValid w → AllValid w'
same_tasks w w' e all = record { each = λ a t k. all.each a t (rw (← e) k) }

-- A call of the kernel, or a change of a cpu's context.
pub emit-AllValid : (e : Event) (w : World) → AllValid w → AllValid (emit e w)
emit-AllValid e w all = same_tasks w _ refl all

pub put_cpu-AllValid : (c : ℕ) (d : DispatchCtx) (w : World) → AllValid w → AllValid (put_cpu c d w)
put_cpu-AllValid c d w all = same_tasks w _ refl all

pub modify_cpu-tasks :
    (cpu : ℕ) (f : DispatchCtx → DispatchCtx) (w : World) → (modify_cpu cpu f w).tasks ≡ w.tasks
unfolding modify_cpu
modify_cpu-tasks cpu f w = elim (Option-cases (get_dispatch_ctx w cpu)) [
  | inl e ↦ rw (e, modify_cpu)
  | inr (d, e) ↦ rw (e, modify_cpu)
]

pub boost_if-AllValid :
    (wakeup : Bool) (c : Context) (p : Task) (w : World)
    → AllValid w
    → AllValid (boost_if wakeup c p w)
unfolding boost_if
boost_if-AllValid wakeup c p w all = elim (Option-cases (get_task_ctx w p)) [
  | inl e ↦ rw (e, boost_if) all
  | inr (t, e) ↦
      rw (e, boost_if)
        (if_cases AllValid wakeup _ _
          (λ _.
            put_task-AllValid _ _ w all
              (apply_wake_boost-IsValid c w p t all (all.each p.address t e)))
          (λ _. all))
]

pub modify_cpu-AllValid :
    (cpu : ℕ) (f : DispatchCtx → DispatchCtx) (w : World)
    → AllValid w
    → AllValid (modify_cpu cpu f w)
modify_cpu-AllValid cpu f w all = same_tasks w (modify_cpu cpu f w) (modify_cpu-tasks cpu f w) all

pub stamp_empty-AllValid :
    (m : Machine) (tier cpu now : ℕ) (w : World)
    → AllValid w
    → AllValid (stamp_empty m tier cpu now w)
unfolding stamp_empty
stamp_empty-AllValid m tier cpu now w all =
    same_tasks w _ (ground (arith, modify_cpu-tasks cpu (stamp_tier_head_ts tier now) w)) all
