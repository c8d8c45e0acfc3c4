-- ===== src/Callbacks/Run.antt =====
-- source/lunar.bpf.c: `lunar_dispatch`, `lunar_running` and `lunar_stopping`.
use lunar_sched.Base.{
  ℕ, ◌-◌, Bool, false, not, Option, none, some, ◌&&◌, ◌||◌, ltb, leb, ◌==◌, add64, if◌then◌else◌,
}
use lunar_sched.Base.Int.{pos}
use lunar_sched.Boost.{Context, charge_override, charge_wake_boost}
use lunar_sched.Cpus.{get_task_ctx, get_dispatch_ctx, modify_cpu}
use lunar_sched.Crit.{elapsed}
use lunar_sched.Datatypes.{Task, TaskCtx, DispatchCtx}
use lunar_sched.Defines.{dsq_type_empty, resume_slice_min_ns, slice_ns, wake_boost_budget_ns}
use lunar_sched.Dispatch.Order.{dispatch_dsq_per_cpu}
use lunar_sched.Duty.{task_duty, duty_account}
use lunar_sched.Kernel.{Machine, World, read_clock, set_slice, emit, put_cpu, put_task}
use lunar_sched.Tier.{sanitize_tier, effective_tier, update_task_dsq_type}

-- `dctx && dctx->preempt_pending`.
abbrev pub pending : Option DispatchCtx → Bool
pending none = false
pending (some d) = d.preempt_pending

unfoldable pub end_boost_if : Bool → TaskCtx → TaskCtx
end_boost_if over t = if over then record t { boost_dsq_type = dsq_type_empty } else t

-- The accounting of the time that a task ran, without the tier.
unfoldable pub account_run : TaskCtx → ℕ → TaskCtx
account_run t used = duty_account t used 0

unfoldable pub set_duty : TaskCtx → TaskCtx
set_duty t = record t { duty = pos (task_duty t) }

-- What `lunar_dispatch` does to the context of the previous task, at the end of its slice.
unfoldable pub end_slice : Bool → Bool → TaskCtx → ℕ → TaskCtx
end_slice kthread preempted t now =
    let used : ℕ = elapsed now t.started_at in
    let charged : TaskCtx = charge_wake_boost t used in
    let over : Bool = not preempted && leb wake_boost_budget_ns charged.boost_used in
    let accounted : TaskCtx = account_run (end_boost_if over charged) used in
    update_task_dsq_type kthread (set_duty (record accounted { started_at = now })) now

-- A previous task that keeps running gets a new slice.
unfoldable pub continue_prev : Task → TaskCtx → ℕ → ℕ → World → World
continue_prev prev t cpu prev_tier w =
    let over : Bool =
      not (t.boost_dsq_type == dsq_type_empty) && leb wake_boost_budget_ns t.boost_used in
    let t' : TaskCtx = record (end_boost_if over t) { granted_slice = slice_ns } in
    let tier : ℕ = if over then sanitize_tier t.current_dsq_type else prev_tier in
    let w' : World = put_task prev.address t' (emit (set_slice prev.address slice_ns) w) in
    modify_cpu cpu (λ d. record d { current_task_dsq_type = tier; preempt_pending = false }) w'

-- From the search for a task on; `t` is the context of the previous task.
unfoldable pub dispatch_after : Machine → ℕ → Task → TaskCtx → World → World
dispatch_after m cpu prev t w =
    let prev_tier : ℕ = effective_tier (some t) in
    let (taken, w') = dispatch_dsq_per_cpu m cpu prev_tier w in
    if taken == dsq_type_empty then continue_prev prev t cpu prev_tier w' else w'

unfoldable pub dispatch_prev : Machine → ℕ → Task → TaskCtx → World → World
dispatch_prev m cpu prev t w =
    let now : ℕ = m.clock w.trace in
    let used : ℕ = elapsed now t.started_at in
    let tier : ℕ = effective_tier (some t) in
    let w' : World = modify_cpu cpu (λ d. charge_override d tier used) (emit (read_clock now) w) in
    let t' : TaskCtx = end_slice prev.pf_kthread (pending (get_dispatch_ctx w' cpu)) t now in
    dispatch_after m cpu prev t' (put_task prev.address t' w')

-- With no previous task to account for, whatever was found is all.
unfoldable pub dispatch_fresh : Machine → ℕ → World → World
dispatch_fresh m cpu w = let (taken, w') = dispatch_dsq_per_cpu m cpu dsq_type_empty w in w'

unfoldable pub dispatch_queued : Machine → ℕ → Task → World → World
dispatch_queued m cpu prev w =
    if prev.queued
    then (elim (get_task_ctx w prev) [
      | none ↦ dispatch_fresh m cpu w
      | some t ↦ dispatch_prev m cpu prev t w
    ])
    else dispatch_fresh m cpu w

unfoldable pub lunar_dispatch : Machine → ℕ → Option Task → World → World
lunar_dispatch m cpu none w = dispatch_fresh m cpu w
lunar_dispatch m cpu (some prev) w = dispatch_queued m cpu prev w

unfoldable pub run_on : Machine → Context → Task → TaskCtx → DispatchCtx → World → World
run_on m c p t d w =
    let d' : DispatchCtx = record d {
      current_task_dsq_type = effective_tier (some t);
      preempt_pending = false;
    } in
    let now : ℕ = m.clock w.trace in
    put_task p.address (record t { started_at = now; granted_slice = p.slice })
      (emit (read_clock now) (put_cpu c.cpu d' w))

unfoldable pub lunar_running : Machine → Context → Task → World → World
lunar_running m c p w = elim (get_task_ctx w p) [
  | none ↦ w
  | some t ↦ (elim (get_dispatch_ctx w c.cpu) [ none ↦ w | some d ↦ run_on m c p t d w ])
]

-- The accounting of `lunar_stopping`, whatever the cpu's context.
unfoldable pub stop_account : Bool → TaskCtx → ℕ → TaskCtx
stop_account kthread t now =
    let used : ℕ = elapsed now t.started_at in
    update_task_dsq_type kthread (set_duty (account_run (charge_wake_boost t used) used)) now

-- A preemption gives the rest of the slice back, and a boost ends with sleep or its budget.
unfoldable pub stop_slice : DispatchCtx → Bool → ℕ → ℕ → TaskCtx → TaskCtx
stop_slice d runnable slice used t =
    let resumes : Bool =
      d.preempt_pending
      && runnable
      && slice == 0
      && ltb (add64 used resume_slice_min_ns) t.granted_slice in
    let t' : TaskCtx = if resumes then record t { resume_slice = t.granted_slice - used } else t in
    end_boost_if (t'.resume_slice == 0 && (not runnable || leb wake_boost_budget_ns t'.boost_used))
      t'

unfoldable pub stop_on : Task → Bool → TaskCtx → ℕ → ℕ → Option DispatchCtx → World → World
stop_on p runnable t now cpu none w = put_task p.address (stop_account p.pf_kthread t now) w
stop_on p runnable t now cpu (some d) w =
    let used : ℕ = elapsed now t.started_at in
    let charged : DispatchCtx = charge_override d (effective_tier (some t)) used in
    let d' : DispatchCtx = record charged {
      preempt_pending = false;
      current_task_dsq_type = dsq_type_empty;
    } in
    let t' : TaskCtx = stop_slice charged runnable p.slice used (stop_account p.pf_kthread t now) in
    put_cpu cpu d' (put_task p.address t' w)

unfoldable pub lunar_stopping : Machine → Task → Bool → World → World
lunar_stopping m p runnable w =
    let now : ℕ = m.clock w.trace in
    let w' : World = emit (read_clock now) w in
    elim (get_task_ctx w' p) [
      | none ↦ w'
      | some t ↦
          let cpu : ℕ = m.task_cpu w'.trace p.address in
          stop_on p runnable t now cpu (get_dispatch_ctx w' cpu) w'
    ]
