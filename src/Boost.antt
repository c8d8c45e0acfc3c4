-- ===== src/Boost.antt =====
-- source/helpers.h and source/lunar.bpf.c: the wake boost, its budget and that of a starvation override,
-- and the record of wakers.
pub mod Wake
use lunar_sched.Base.{
  ℕ, ◌-◌, Bool, true, false, not, Option, none, some, ◌&&◌, ◌||◌, ltb, ◌==◌, add64, if◌then◌else◌,
}
use lunar_sched.Cpus.{get_task_ctx}
use lunar_sched.Crit.{exponentially_weighted_moving_avg, elapsed, clamp_interval}
use lunar_sched.Datatypes.{Task, TaskCtx, DispatchCtx}
use lunar_sched.Defines.{dsq_type_empty, wake_boost_from_kthreads}
use lunar_sched.Kernel.{World, put_task}
use lunar_sched.Tier.{sanitize_tier, effective_tier}

-- Where a callback runs: the cpu, whether in task or in interrupt context, and the current task.
pub record Context : Type 0 where
  pub cpu : ℕ
  pub in_task : Bool
  pub in_interrupt : Bool
  pub current : Option Task

unfoldable pub charge_override : DispatchCtx → ℕ → ℕ → DispatchCtx
charge_override d tier used =
    if d.override_left == 0 || not (tier == d.override_tier)
    then d
    else record d { override_left = if ltb used d.override_left then d.override_left - used else 0 }

unfoldable pub charge_wake_boost : TaskCtx → ℕ → TaskCtx
charge_wake_boost t used =
    if t.boost_dsq_type == dsq_type_empty
    then t
    else record t { boost_used = add64 t.boost_used used }

-- The second half of `apply_wake_boost`: the context of the waker is known.
unfoldable pub boost_from : TaskCtx → TaskCtx → TaskCtx
boost_from wctx t =
    let waker_tier : ℕ = effective_tier (some wctx) in
    if ltb waker_tier (sanitize_tier t.current_dsq_type) && ltb waker_tier t.boost_dsq_type
    then record t { boost_dsq_type = waker_tier; boost_used = 0 }
    else t

unfoldable pub boost_by : World → Task → Task → TaskCtx → TaskCtx
boost_by w waker p t =
    if waker.address == p.address || waker.pf_idle
    then t
    else if (wake_boost_from_kthreads == 0) && waker.pf_kthread
    then t
    else (elim (get_task_ctx w waker) [ none ↦ t | some wctx ↦ boost_from wctx t ])

unfoldable pub apply_wake_boost : Context → World → Task → TaskCtx → TaskCtx
apply_wake_boost c w p t =
    if not c.in_task then t else (elim c.current [ none ↦ t | some waker ↦ boost_by w waker p t ])

unfoldable pub note_wake : ℕ → TaskCtx → TaskCtx
note_wake now t = record t {
  wake_interval =
      exponentially_weighted_moving_avg t.wake_interval
        (clamp_interval (elapsed now t.last_wake_at));
  last_wake_at = now;
}

unfoldable pub record_wake_by : Task → Task → ℕ → World → World
record_wake_by waker p now w = if waker.pid == p.pid then w else (elim (get_task_ctx w waker) [
  | none ↦ w
  | some wctx ↦ put_task waker.address (note_wake now wctx) w
])

-- With no current task nothing is recorded: there is no context to find.
unfoldable pub record_waker : Context → Task → ℕ → World → World
record_waker c p now w =
    if c.in_interrupt
    then w
    else (elim c.current [ none ↦ w | some waker ↦ record_wake_by waker p now w ])
