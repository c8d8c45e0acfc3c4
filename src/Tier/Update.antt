-- ===== src/Tier/Update.antt =====
-- What an update of the tier does: the range, the hysteresis on the duty, the floor for kernel threads.
use lunar_sched.Base.{ℕ, ◌≤◌, ◌<◌, ◌≡◌, arith, Bool, true, false, min, max}
use lunar_sched.Base.Int.{ℤ, pos, ◌+ℤ◌, ◌-ℤ◌, ◌≤ℤ◌, ◌<ℤ◌, +ℤ_parts, -ℤ_parts}
use lunar_sched.Crit.{calc_crit}
use lunar_sched.Datatypes.{TaskCtx}
use lunar_sched.Defines.{duty_cap_interactive, duty_hyst, duty_samples_needed}
use lunar_sched.Tier.{target_tier, update_task_dsq_type}
use lunar_sched.Tier.Target.{IsTier, target_tier-IsTier, target_tier_mono}

-- The targets at the two ends of the hysteresis.
abbrev pub optimistic : TaskCtx → ℕ → ℕ
optimistic t now = target_tier (pos (calc_crit t now)) (t.duty -ℤ pos duty_hyst)

abbrev pub pessimistic : TaskCtx → ℕ → ℕ
pessimistic t now = target_tier (pos (calc_crit t now)) (t.duty +ℤ pos duty_hyst)

optimistic-le-pessimistic : (t : TaskCtx) (now : ℕ) → optimistic t now ≤ pessimistic t now
optimistic-le-pessimistic t now =
    target_tier_mono _ _ _ _ (omega arith)
      (omega (arith, +ℤ_parts t.duty (pos duty_hyst), -ℤ_parts t.duty (pos duty_hyst)))

-- Whatever tier a task had, after an update it is one of the four.
pub update_task_dsq_type-IsTier :
    (kthread : Bool) (t : TaskCtx) (now : ℕ)
    → IsTier (update_task_dsq_type kthread t now).current_dsq_type
unfolding update_task_dsq_type
update_task_dsq_type-IsTier kthread t now = ground (
  arith,
  target_tier-IsTier (pos (calc_crit t now)) (t.duty -ℤ pos duty_hyst),
  target_tier-IsTier (pos (calc_crit t now)) (t.duty +ℤ pos duty_hyst),
)

-- With enough samples, the new tier of a task other than a kernel thread is the old one, moved into the
-- span between the targets at 1% less and at 1% more duty.
pub update_task_dsq_type_span :
    (t : TaskCtx) (now : ℕ)
    → duty_samples_needed ≤ t.duty_samples
    → (update_task_dsq_type false t now).current_dsq_type
      ≡ max (optimistic t now) (min t.current_dsq_type (pessimistic t now))
unfolding update_task_dsq_type
update_task_dsq_type_span t now h = ground (arith, optimistic-le-pessimistic t now)

-- A second update at the same time changes nothing, of a kernel thread or another task.
pub update_task_dsq_type-idempotent :
    (kthread : Bool) (t : TaskCtx) (now : ℕ)
    → update_task_dsq_type kthread (update_task_dsq_type kthread t now) now
      ≡ update_task_dsq_type kthread t now
unfolding update_task_dsq_type calc_crit
update_task_dsq_type-idempotent kthread t now = ground (arith, optimistic-le-pessimistic t now)

-- After an update a kernel thread with a duty under 10% is INTERACTIVE or LC, whatever its samples.
update_task_dsq_type_kthread :
    (t : TaskCtx) (now : ℕ)
    → t.duty <ℤ pos duty_cap_interactive
    → (update_task_dsq_type true t now).current_dsq_type ≤ 2
unfolding update_task_dsq_type
update_task_dsq_type_kthread t now h = ground arith

-- An ordinary task with too few samples is GREEDY.
pub update_task_dsq_type_fresh :
    (t : TaskCtx) (now : ℕ)
    → t.duty_samples < duty_samples_needed
    → (update_task_dsq_type false t now).current_dsq_type ≡ 4
unfolding update_task_dsq_type
update_task_dsq_type_fresh t now h = ground arith

-- A task, no kernel thread and with enough samples, in the tier that its score and some duty `d` call for
-- keeps it while its duty is within 1% of `d`.
pub update_task_dsq_type_stable :
    (t : TaskCtx) (now : ℕ) (d : ℤ)
    → duty_samples_needed ≤ t.duty_samples
    → t.current_dsq_type ≡ target_tier (pos (calc_crit t now)) d
    → t.duty ≤ℤ d +ℤ pos duty_hyst
    → d ≤ℤ t.duty +ℤ pos duty_hyst
    → (update_task_dsq_type false t now).current_dsq_type ≡ t.current_dsq_type
update_task_dsq_type_stable t now d samples settled above below =
    let low : optimistic t now ≤ target_tier (pos (calc_crit t now)) d =
      target_tier_mono _ _ _ _ (omega arith)
        (omega (arith, +ℤ_parts d (pos duty_hyst), -ℤ_parts t.duty (pos duty_hyst))) in
    let high : target_tier (pos (calc_crit t now)) d ≤ pessimistic t now =
      target_tier_mono _ _ _ _ (omega arith) below in
    omega (arith, update_task_dsq_type_span t now samples)

-- The update leaves all but the tier and the score alone.
pub update_task_dsq_type_frame :
    (kthread : Bool) (t : TaskCtx) (now : ℕ)
    → let t' = update_task_dsq_type kthread t now in
      t' ≡ record t { current_dsq_type = t'.current_dsq_type; crit = calc_crit t now }
unfolding update_task_dsq_type
update_task_dsq_type_frame kthread t now = ground arith
