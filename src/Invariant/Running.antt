-- ===== src/Invariant/Running.antt =====
-- `lunar_dispatch`, `lunar_running`, `lunar_stopping`, `lunar_sched_switch` and the initialisation keep the
-- contexts of all tasks valid.
use lunar_sched.Base.{
  ℕ, zero, suc, ◌+◌, ◌≡◌, refl, inl, inr, Bool, true, false, Option, none, some, List, [], ◌∷◌,
  arith, Bool-cases, Option-cases, if_cases, ◌==◌, if◌then◌else◌,
}
use lunar_sched.Boost.{Context}
use lunar_sched.Callbacks.Init.{
  create_queues, init_queues, init_cpus, lunar_init, reset_task, reset_kthread, lunar_init_task,
  queues_of,
}
use lunar_sched.Callbacks.Run.{
  continue_prev, dispatch_after, dispatch_prev, dispatch_fresh, dispatch_queued, run_on, stop_on,
  lunar_dispatch, lunar_running, lunar_stopping, end_boost_if,
}
use lunar_sched.Callbacks.Switch.{note_switch, leave_cpu, lunar_sched_switch}
use lunar_sched.Cpus.{get_task_ctx, get_dispatch_ctx, is_rt_task}
use lunar_sched.Datatypes.{Task, TaskCtx, DispatchCtx}
use lunar_sched.Defines.{dsq_type_empty}
use lunar_sched.Tier.{effective_tier}
use lunar_sched.Dispatch.Frame.{dispatch_dsq_per_cpu-Frame}
use lunar_sched.Dispatch.Kick.{kick_found, kick_for, kick_tiers, kick_idle_for_waiting}
use lunar_sched.Dispatch.Order.{dispatch_dsq_per_cpu}
use lunar_sched.Invariant.Task.{
  IsValid, AllValid, end_slice-IsValid, stop_account-IsValid, stop_slice-IsValid,
  reset_task-IsValid, reset_kthread-IsValid,
}
use lunar_sched.Kernel.{Machine, World, reenqueue_local, create_dsq, read_clock, emit}
use lunar_sched.Invariant.Tasks.{
  put_task-AllValid, same_tasks, emit-AllValid, put_cpu-AllValid, modify_cpu-AllValid,
}

init_cpus-tasks :
    (m : Machine) (rounds cpu : ℕ) (w : World) → (init_cpus m rounds cpu w).1.tasks ≡ w.tasks
unfolding init_cpus
init_cpus-tasks m zero cpu w = refl
init_cpus-tasks m (suc rounds) cpu w = elim (Option-cases (get_dispatch_ctx w cpu)) [
  | inl e ↦ rw (e, init_cpus)
  | inr (d, e) ↦ rw (e, init_cpus) (init_cpus-tasks m rounds (cpu + 1) _)
]

create_queues-tasks :
    (m : Machine) (dsqs : List ℕ) (w : World) → (create_queues m dsqs w).1.tasks ≡ w.tasks
unfolding create_queues
create_queues-tasks m [] w = refl
create_queues-tasks m (dsq ∷ dsqs) w =
    ground (arith, create_queues-tasks m dsqs (emit (create_dsq dsq (m.creates w.trace dsq)) w))

init_queues-tasks :
    (m : Machine) (rounds cpu : ℕ) (w : World) → (init_queues m rounds cpu w).1.tasks ≡ w.tasks
unfolding init_queues
init_queues-tasks m zero cpu w = refl
init_queues-tasks m (suc rounds) cpu w = ground (
  arith,
  create_queues-tasks m (queues_of cpu) w,
  init_queues-tasks m rounds (cpu + 1) (create_queues m (queues_of cpu) w).1,
)

pub lunar_init-AllValid : (m : Machine) (w : World) → AllValid w → AllValid (lunar_init m w).1
unfolding lunar_init
lunar_init-AllValid m w all =
    same_tasks w (lunar_init m w).1
      (ground (
        arith,
        init_queues-tasks m m.nr_cpu_ids 0 w,
        init_cpus-tasks m m.nr_cpu_ids 0 (init_queues m m.nr_cpu_ids 0 w).1,
      ))
      all

init_context-IsValid :
    (kthread : Bool) (now : ℕ) (t : TaskCtx)
    → IsValid (if kthread then reset_kthread (reset_task now t) else reset_task now t)
init_context-IsValid true now t = reset_kthread-IsValid _ (reset_task-IsValid now t)
init_context-IsValid false now t = reset_task-IsValid now t

pub lunar_init_task-AllValid :
    (m : Machine) (p : Task) (w : World) → AllValid w → AllValid (lunar_init_task m p w).1
unfolding lunar_init_task
lunar_init_task-AllValid m p w all =
    elim (Bool-cases (m.stores (read_clock (m.clock w.trace) ∷ w.trace) p.address)) [
      | inl e ↦
          rw (e, lunar_init_task)
            (put_task-AllValid p.address _ _ (emit-AllValid _ w all)
              (init_context-IsValid p.pf_kthread _ _))
      | inr e ↦ rw (e, lunar_init_task) (emit-AllValid _ w all)
    ]

continue_prev-AllValid :
    (p : Task) (t : TaskCtx) (cpu tier : ℕ) (w : World)
    → AllValid w
    → IsValid t
    → AllValid (continue_prev p t cpu tier w)
unfolding continue_prev end_boost_if
continue_prev-AllValid p t cpu tier w all v =
    modify_cpu-AllValid cpu _ _
      (put_task-AllValid p.address _ _ (emit-AllValid _ w all) (ground arith))

dispatched :
    (m : Machine) (cpu tier : ℕ) (w : World)
    → AllValid w
    → AllValid (dispatch_dsq_per_cpu m cpu tier w).1
dispatched m cpu tier w all = same_tasks w _ (dispatch_dsq_per_cpu-Frame m cpu tier w).tasks all

dispatch_after-AllValid :
    (m : Machine) (cpu : ℕ) (p : Task) (t : TaskCtx) (w : World)
    → AllValid w
    → IsValid t
    → AllValid (dispatch_after m cpu p t w)
unfolding dispatch_after
dispatch_after-AllValid m cpu p t w all v =
    let r : ℕ × World = dispatch_dsq_per_cpu m cpu (effective_tier (some t)) w in
    let after : AllValid r.1 = dispatched m cpu (effective_tier (some t)) w all in
    if_cases AllValid (r.0 == dsq_type_empty) _ _ (λ _. continue_prev-AllValid p t cpu _ _ after v)
      (λ _. after)

dispatch_prev-AllValid :
    (m : Machine) (cpu : ℕ) (p : Task) (t : TaskCtx) (w : World)
    → AllValid w
    → IsValid t
    → AllValid (dispatch_prev m cpu p t w)
unfolding dispatch_prev
dispatch_prev-AllValid m cpu p t w all v =
    let next = end_slice-IsValid p.pf_kthread _ t _ v in
    dispatch_after-AllValid m cpu p _ _
      (put_task-AllValid p.address _ _ (modify_cpu-AllValid cpu _ _ (emit-AllValid _ w all)) next)
      next

dispatch_fresh-AllValid :
    (m : Machine) (cpu : ℕ) (w : World) → AllValid w → AllValid (dispatch_fresh m cpu w)
unfolding dispatch_fresh
dispatch_fresh-AllValid m cpu w all = dispatched m cpu 5 w all

dispatch_queued-AllValid :
    (m : Machine) (cpu : ℕ) (p : Task) (w : World)
    → AllValid w
    → AllValid (dispatch_queued m cpu p w)
unfolding dispatch_queued
dispatch_queued-AllValid m cpu p w all = elim (Option-cases (get_task_ctx w p)) [
  | inl e ↦
      rw (e, dispatch_queued)
        (if_cases AllValid p.queued _ _ (λ _. dispatch_fresh-AllValid m cpu w all)
          (λ _. dispatch_fresh-AllValid m cpu w all))
  | inr (t, e) ↦
      rw (e, dispatch_queued)
        (if_cases AllValid p.queued _ _
          (λ _. dispatch_prev-AllValid m cpu p t w all (all.each p.address t e))
          (λ _. dispatch_fresh-AllValid m cpu w all))
]

pub lunar_dispatch-AllValid :
    (m : Machine) (cpu : ℕ) (prev : Option Task) (w : World)
    → AllValid w
    → AllValid (lunar_dispatch m cpu prev w)
unfolding lunar_dispatch
lunar_dispatch-AllValid m cpu none w all = dispatch_fresh-AllValid m cpu w all
lunar_dispatch-AllValid m cpu (some p) w all = dispatch_queued-AllValid m cpu p w all

restarted :
    (t : TaskCtx) (now slice : ℕ)
    → IsValid t
    → IsValid (record t { started_at = now; granted_slice = slice })
restarted t now slice v = omega arith

pub lunar_running-AllValid :
    (m : Machine) (c : Context) (p : Task) (w : World)
    → AllValid w
    → AllValid (lunar_running m c p w)
unfolding lunar_running run_on
lunar_running-AllValid m c p w all = elim (Option-cases (get_task_ctx w p)) [
  | inl e ↦ rw (e, lunar_running) all
  | inr (t, e) ↦ (elim (Option-cases (get_dispatch_ctx w c.cpu)) [
    | inl n ↦ rw (e, lunar_running) (rw (n, lunar_running) all)
    | inr (d, n) ↦
        rw (e, lunar_running)
          (rw (n, lunar_running)
            (put_task-AllValid p.address _ _ (emit-AllValid _ _ (put_cpu-AllValid c.cpu _ w all))
              (restarted t _ _ (all.each p.address t e))))
  ])
]

stop_on-AllValid :
    (p : Task) (runnable : Bool) (t : TaskCtx) (now cpu : ℕ) (o : Option DispatchCtx) (w : World)
    → AllValid w
    → IsValid t
    → AllValid (stop_on p runnable t now cpu o w)
unfolding stop_on
stop_on-AllValid p runnable t now cpu none w all v =
    put_task-AllValid p.address _ w all (stop_account-IsValid p.pf_kthread t now v)
stop_on-AllValid p runnable t now cpu (some d) w all v = put_cpu-AllValid cpu _ _ (
    put_task-AllValid p.address _ w all
      (stop_slice-IsValid _ runnable p.slice _ _ (stop_account-IsValid p.pf_kthread t now v)))

pub lunar_stopping-AllValid :
    (m : Machine) (p : Task) (runnable : Bool) (w : World)
    → AllValid w
    → AllValid (lunar_stopping m p runnable w)
unfolding lunar_stopping
lunar_stopping-AllValid m p runnable w all = elim (Option-cases (get_task_ctx w p)) [
  | inl e ↦ rw (e, lunar_stopping) (emit-AllValid _ w all)
  | inr (t, e) ↦
      rw (e, lunar_stopping)
        (stop_on-AllValid p runnable t _ _ _ _ (emit-AllValid _ w all) (all.each p.address t e))
]

kick_tiers-tasks :
    (m : Machine) (cpu rounds tier : ℕ) (w : World)
    → (kick_tiers m cpu rounds tier w).tasks ≡ w.tasks
unfolding kick_tiers kick_for kick_found
kick_tiers-tasks m cpu zero tier w = refl
kick_tiers-tasks m cpu (suc rounds) tier w =
    ground (arith, kick_tiers-tasks m cpu rounds (tier + 1) w)

leave_cpu-tasks : (m : Machine) (cpu : ℕ) (w : World) → (leave_cpu m cpu w).tasks ≡ w.tasks
unfolding leave_cpu kick_idle_for_waiting
leave_cpu-tasks m cpu w =
    ground
      (arith, kick_tiers-tasks m cpu 4 1 w, kick_tiers-tasks m cpu 4 1 (emit reenqueue_local w))

note_switch-tasks :
    (cpu : ℕ) (rt : Bool) (d : DispatchCtx) (w : World) → (note_switch cpu rt d w).tasks ≡ w.tasks
unfolding note_switch
note_switch-tasks cpu rt d w = ground arith

pub lunar_sched_switch-AllValid :
    (m : Machine) (cpu : ℕ) (next : Task) (w : World)
    → AllValid w
    → AllValid (lunar_sched_switch m cpu next w)
unfolding lunar_sched_switch
lunar_sched_switch-AllValid m cpu next w all = elim (Option-cases (get_dispatch_ctx w cpu)) [
  | inl e ↦ rw (e, lunar_sched_switch) all
  | inr (d, e) ↦
      let noted = same_tasks w _ (note_switch-tasks cpu (is_rt_task next) d w) all in
      rw (e, lunar_sched_switch)
        (if_cases AllValid (is_rt_task next) _ _
          (λ _. same_tasks _ _ (leave_cpu-tasks m cpu _) noted) (λ _. noted))
]
