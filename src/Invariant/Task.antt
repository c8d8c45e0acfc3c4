-- ===== src/Invariant/Task.antt =====
-- What holds of the context of every task, and that each operation on a context keeps it.
use lunar_sched.Base.{ℕ, ◌≤◌, ◌≡◌, inl, inr, Bool, some, arith, Option-cases}
use lunar_sched.Base.Int.{pos, ◌≤ℤ◌, ◌<ℤ◌}
use lunar_sched.Boost.{
  Context, boost_from, boost_by, apply_wake_boost, charge_wake_boost, note_wake,
}
use lunar_sched.Callbacks.Init.{reset_task, kthread_sums, reset_kthread}
use lunar_sched.Callbacks.Run.{
  end_boost_if, account_run, set_duty, end_slice, stop_account, stop_slice,
}
use lunar_sched.Callbacks.Wakeup.{block_task, note_woken, sample, end_block}
use lunar_sched.Cpus.{get_task_ctx}
use lunar_sched.Crit.{elapsed}
use lunar_sched.Crit.Score.{InRange, ewma-InRange, clamp_interval-InRange, calc_crit_sum}
use lunar_sched.Datatypes.{Task, TaskCtx, DispatchCtx}
use lunar_sched.Defines.{duty_samples_max}
use lunar_sched.Duty.{duty_account}
use lunar_sched.Duty.Window.{InWindow, duty_account-InWindow, task_duty_floor}
use lunar_sched.Kernel.{World}
use lunar_sched.Placement.{migrate}
use lunar_sched.Tier.{effective_tier, sanitize_tier, update_task_dsq_type}
use lunar_sched.Tier.Target.{IsTier}
use lunar_sched.Tier.Update.{update_task_dsq_type-IsTier, update_task_dsq_type_frame}

pub record IsValid (t : TaskCtx) : Type 0 where
  pub tier : IsTier t.current_dsq_type
  pub boost : (1 ≤ t.boost_dsq_type) × (t.boost_dsq_type ≤ 5)
  pub window : InWindow t
  pub duty : (pos 0 ≤ℤ t.duty) × (t.duty <ℤ pos 1024)
  pub samples : t.duty_samples ≤ duty_samples_max
  pub wait : InRange t.wait_interval
  pub wake : InRange t.wake_interval
  pub crit : t.crit ≤ 32

-- A boost is at least as good as the tier, so the tier that counts is one of the four.
pub effective_tier-IsTier : (t : TaskCtx) → IsValid t → IsTier (effective_tier (some t))
unfolding effective_tier sanitize_tier
effective_tier-IsTier t v = ground arith

pub duty_account-IsValid :
    (t : TaskCtx) (run slept : ℕ) → IsValid t → IsValid (duty_account t run slept)
unfolding duty_account
duty_account-IsValid t run slept v = ground (arith, duty_account-InWindow t run slept v.window)

pub set_duty-IsValid : (t : TaskCtx) → IsValid t → IsValid (set_duty t)
unfolding set_duty
set_duty-IsValid t v = ground (arith, task_duty_floor t v.window)

pub update-IsValid :
    (kthread : Bool) (t : TaskCtx) (now : ℕ)
    → IsValid t
    → IsValid (update_task_dsq_type kthread t now)
update-IsValid kthread t now v = rw (update_task_dsq_type_frame kthread t now) (record {
  tier = update_task_dsq_type-IsTier kthread t now;
  boost = v.boost;
  window = v.window;
  duty = v.duty;
  samples = v.samples;
  wait = v.wait;
  wake = v.wake;
  crit = (calc_crit_sum t now).1;
})

pub reset_task-IsValid : (now : ℕ) (t : TaskCtx) → IsValid (reset_task now t)
unfolding reset_task
reset_task-IsValid now t = omega arith

kthread_sums-InWindow : (t : TaskCtx) → InWindow (kthread_sums t)
unfolding kthread_sums
kthread_sums-InWindow t = omega arith

pub reset_kthread-IsValid : (t : TaskCtx) → IsValid t → IsValid (reset_kthread t)
unfolding reset_kthread kthread_sums
reset_kthread-IsValid t v =
    ground (arith, task_duty_floor (kthread_sums t) (kthread_sums-InWindow t))

pub charge_wake_boost-IsValid :
    (t : TaskCtx) (used : ℕ) → IsValid t → IsValid (charge_wake_boost t used)
unfolding charge_wake_boost
charge_wake_boost-IsValid t used v = ground arith

end_boost_if-IsValid : (over : Bool) (t : TaskCtx) → IsValid t → IsValid (end_boost_if over t)
unfolding end_boost_if
end_boost_if-IsValid over t v = ground arith

-- The boost comes from the waker's tier, so it is a tier too.
boost_from-IsValid : (wctx t : TaskCtx) → IsValid wctx → IsValid t → IsValid (boost_from wctx t)
unfolding boost_from
boost_from-IsValid wctx t u v = ground (arith, effective_tier-IsTier wctx u)

pub record AllValid (w : World) : Type 0 where
  pub each : (a : ℕ) (t : TaskCtx) → w.tasks a ≡ some t → IsValid t

boost_by-IsValid :
    (w : World) (waker p : Task) (t : TaskCtx)
    → AllValid w
    → IsValid t
    → IsValid (boost_by w waker p t)
unfolding boost_by
boost_by-IsValid w waker p t all v = elim (Option-cases (get_task_ctx w waker)) [
  | inl e ↦ rw (e, boost_by) (ground arith)
  | inr (u, e) ↦
      rw (e, boost_by) (ground (arith, boost_from-IsValid u t (all.each waker.address u e) v))
]

pub apply_wake_boost-IsValid :
    (c : Context) (w : World) (p : Task) (t : TaskCtx)
    → AllValid w
    → IsValid t
    → IsValid (apply_wake_boost c w p t)
unfolding apply_wake_boost
apply_wake_boost-IsValid c w p t all v = elim (Option-cases c.current) [
  | inl e ↦ rw (e, apply_wake_boost) (ground arith)
  | inr (waker, e) ↦ rw (e, apply_wake_boost) (ground (arith, boost_by-IsValid w waker p t all v))
]

pub note_wake-IsValid : (now : ℕ) (t : TaskCtx) → IsValid t → IsValid (note_wake now t)
unfolding note_wake
note_wake-IsValid now t v = record {
  tier = v.tier;
  boost = v.boost;
  window = v.window;
  duty = v.duty;
  samples = v.samples;
  wait = v.wait;
  wake =
      ewma-InRange t.wake_interval _ v.wake (clamp_interval-InRange (elapsed now t.last_wake_at));
  crit = v.crit;
}

pub note_woken-IsValid : (now : ℕ) (t : TaskCtx) → IsValid t → IsValid (note_woken now t)
unfolding note_woken
note_woken-IsValid now t v = record {
  tier = v.tier;
  boost = v.boost;
  window = v.window;
  duty = v.duty;
  samples = v.samples;
  wait =
      ewma-InRange t.wait_interval _ v.wait (clamp_interval-InRange (elapsed now t.last_woken_at));
  wake = v.wake;
  crit = v.crit;
}

pub block_task-IsValid : (at : ℕ) (t : TaskCtx) → IsValid t → IsValid (block_task at t)
unfolding block_task
block_task-IsValid at t v = omega arith

pub sample-IsValid : (t : TaskCtx) → IsValid t → IsValid (sample t)
unfolding sample
sample-IsValid t v = ground arith

pub end_block-IsValid : (p : Task) (now : ℕ) (t : TaskCtx) → IsValid t → IsValid (end_block p now t)
unfolding end_block set_duty
end_block-IsValid p now t v =
    update-IsValid p.pf_kthread _ now (
      set_duty-IsValid _ (sample-IsValid _ (duty_account-IsValid t 0 (elapsed now t.blocked_at) v)))

pub migrate-IsValid :
    (t : TaskCtx) (cpu target now : ℕ) → IsValid t → IsValid (migrate t cpu target now)
unfolding migrate
migrate-IsValid t cpu target now v = ground arith

restart-IsValid : (t : TaskCtx) (now : ℕ) → IsValid t → IsValid (record t { started_at = now })
restart-IsValid t now v = omega arith

pub end_slice-IsValid :
    (kthread preempted : Bool) (t : TaskCtx) (now : ℕ)
    → IsValid t
    → IsValid (end_slice kthread preempted t now)
unfolding end_slice account_run
end_slice-IsValid kthread preempted t now v = update-IsValid kthread _ now (
    set_duty-IsValid _ (
      restart-IsValid _ now
        (duty_account-IsValid _ _ 0 (end_boost_if-IsValid _ _ (charge_wake_boost-IsValid t _ v)))))

pub stop_account-IsValid :
    (kthread : Bool) (t : TaskCtx) (now : ℕ) → IsValid t → IsValid (stop_account kthread t now)
unfolding stop_account account_run
stop_account-IsValid kthread t now v =
    update-IsValid kthread _ now
      (set_duty-IsValid _ (duty_account-IsValid _ _ 0 (charge_wake_boost-IsValid t _ v)))

pub stop_slice-IsValid :
    (d : DispatchCtx) (runnable : Bool) (slice used : ℕ) (t : TaskCtx)
    → IsValid t
    → IsValid (stop_slice d runnable slice used t)
unfolding stop_slice end_boost_if
stop_slice-IsValid d runnable slice used t v = ground arith
