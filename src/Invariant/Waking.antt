-- ===== src/Invariant/Waking.antt =====
-- `lunar_quiescent` and `lunar_runnable` keep the contexts of all tasks valid.
use lunar_sched.Base.{ℕ, inl, inr, Option-cases, if_cases, ◌==◌}
use lunar_sched.Boost.{Context, record_wake_by, record_waker}
use lunar_sched.Callbacks.Wakeup.{
  runnable_slept, lunar_quiescent, lunar_runnable, has_flag, scx_enq_wakeup, scx_deq_sleep,
}
use lunar_sched.Cpus.{get_task_ctx}
use lunar_sched.Datatypes.{Task}
use lunar_sched.Invariant.Task.{
  AllValid, note_wake-IsValid, note_woken-IsValid, block_task-IsValid, end_block-IsValid,
}
use lunar_sched.Kernel.{Machine, World}
use lunar_sched.Invariant.Tasks.{put_task-AllValid, emit-AllValid}

pub lunar_quiescent-AllValid :
    (m : Machine) (p : Task) (flags : ℕ) (w : World)
    → AllValid w
    → AllValid (lunar_quiescent m p flags w)
unfolding lunar_quiescent
lunar_quiescent-AllValid m p flags w all = elim (Option-cases (get_task_ctx w p)) [
  | inl e ↦ rw (e, lunar_quiescent) all
  | inr (t, e) ↦
      let v = all.each p.address t e in
      rw (e, lunar_quiescent)
        (if_cases AllValid (has_flag flags scx_deq_sleep) _ _
          (λ _. put_task-AllValid p.address _ _ (emit-AllValid _ _ all) (block_task-IsValid _ t v))
          (λ _. put_task-AllValid p.address _ _ all (block_task-IsValid 0 t v)))
]

record_wake_by-AllValid :
    (waker p : Task) (now : ℕ) (w : World) → AllValid w → AllValid (record_wake_by waker p now w)
unfolding record_wake_by
record_wake_by-AllValid waker p now w all = elim (Option-cases (get_task_ctx w waker)) [
  | inl e ↦
      rw (e, record_wake_by) (if_cases AllValid (waker.pid == p.pid) _ _ (λ _. all) (λ _. all))
  | inr (t, e) ↦
      rw (e, record_wake_by)
        (if_cases AllValid (waker.pid == p.pid) _ _ (λ _. all)
          (λ _. put_task-AllValid _ _ w all (note_wake-IsValid now t (all.each waker.address t e))))
]

record_waker-AllValid :
    (c : Context) (p : Task) (now : ℕ) (w : World) → AllValid w → AllValid (record_waker c p now w)
unfolding record_waker
record_waker-AllValid c p now w all = elim (Option-cases c.current) [
  | inl e ↦ rw (e, record_waker) (if_cases AllValid c.in_interrupt _ _ (λ _. all) (λ _. all))
  | inr (waker, e) ↦
      rw (e, record_waker)
        (if_cases AllValid c.in_interrupt _ _ (λ _. all)
          (λ _. record_wake_by-AllValid waker p now w all))
]

runnable_slept-AllValid :
    (p : Task) (now : ℕ) (w : World) → AllValid w → AllValid (runnable_slept p now w)
unfolding runnable_slept
runnable_slept-AllValid p now w all = elim (Option-cases (get_task_ctx w p)) [
  | inl e ↦ rw (e, runnable_slept) all
  | inr (t, e) ↦
      rw (e, runnable_slept)
        (if_cases AllValid (t.blocked_at == 0) _ _ (λ _. all)
          (λ _. put_task-AllValid _ _ w all (end_block-IsValid p now t (all.each p.address t e))))
]

pub lunar_runnable-AllValid :
    (m : Machine) (c : Context) (p : Task) (flags : ℕ) (w : World)
    → AllValid w
    → AllValid (lunar_runnable m c p flags w)
unfolding lunar_runnable
lunar_runnable-AllValid m c p flags w all = elim (Option-cases (get_task_ctx w p)) [
  | inl e ↦ rw (e, lunar_runnable) (emit-AllValid _ _ all)
  | inr (t, e) ↦
      rw (e, lunar_runnable)
        (if_cases AllValid (has_flag flags scx_enq_wakeup) _ _
          (λ _. runnable_slept-AllValid p _ _ (
            record_waker-AllValid c p _ _ (
              put_task-AllValid _ _ _ (emit-AllValid _ _ all)
                (note_woken-IsValid _ t (all.each p.address t e)))))
          (λ _. runnable_slept-AllValid p _ _ (emit-AllValid _ _ all)))
]
