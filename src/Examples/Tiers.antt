-- ===== src/Examples/Tiers.antt =====
-- Tiers, duty and crit score of single tasks.
use lunar_sched.Base.{ℕ, ◌+◌, ◌≤◌, ◌<◌, ◌≡◌, refl, false, List, [], ◌∷◌, arith, min, max}
use lunar_sched.Base.Int.{pos, ◌≤ℤ◌, ◌+ℤ◌}
use lunar_sched.Crit.{ilog2, calc_crit}
use lunar_sched.Crit.Log2.{IsLog2, ilog2-IsLog2}
use lunar_sched.Crit.Score.{calc_crit_sum, rate}
use lunar_sched.Crit.{effective_interval}
use lunar_sched.Datatypes.{TaskCtx}
use lunar_sched.Defines.{duty_cap_normal, duty_cap_lc, duty_hyst}
use lunar_sched.Duty.{task_duty}
use lunar_sched.Duty.Bounds.{duty_periods, task_duty-duty_periods_run, task_duty-duty_periods_sleep}
use lunar_sched.Examples.Sample.{half_busy}
use lunar_sched.Tier.{target_tier, update_task_dsq_type}
use lunar_sched.Tier.Target.{Admits, target_tier_best}
use lunar_sched.Tier.Update.{
  optimistic, pessimistic, update_task_dsq_type_span, update_task_dsq_type_stable,
}

-- 4000 is between 2^11 and 2^12.
ilog2-IsLog2_example : IsLog2 4000 (ilog2 4000)
ilog2-IsLog2_example = ilog2-IsLog2 4000 (omega arith) (omega arith)

calc_crit_sum_example :
    (calc_crit half_busy 5000
      ≡ ilog2 (rate (effective_interval 1_000_000_000 0 5000))
        + ilog2 (rate (effective_interval 1_000_000_000 0 5000)))
    × (calc_crit half_busy 5000 ≤ 32)
calc_crit_sum_example = calc_crit_sum half_busy 5000

-- Periods of different lengths.
abbrev runs : List (ℕ × ℕ)
runs = (400_000_000, 0) ∷ (100_000_000, 0) ∷ (150_000_000, 0) ∷ (100_000_000, 0) ∷ []

abbrev sleeps : List (ℕ × ℕ)
sleeps =
    (0, 100_000_000)
    ∷ (0, 600_000_000)
    ∷ (0, 100_000_000)
    ∷ (0, 200_000_000)
    ∷ (0, 100_000_000)
    ∷ (0, 100_000_000)
    ∷ []

task_duty-duty_periods_run_example :
    duty_cap_normal + duty_hyst ≤ task_duty (duty_periods runs half_busy)
task_duty-duty_periods_run_example =
    task_duty-duty_periods_run half_busy runs (omega arith)
      (omega arith, refl, (omega arith, refl, (omega arith, refl, (omega arith, refl, tt))))
      (omega arith)

task_duty-duty_periods_sleep_example :
    task_duty (duty_periods sleeps half_busy) + duty_hyst < duty_cap_lc
task_duty-duty_periods_sleep_example =
    task_duty-duty_periods_sleep half_busy sleeps (omega arith)
      (
        refl,
        omega arith,
        (
          refl,
          omega arith,
          (refl, omega arith, (refl, omega arith, (refl, omega arith, (refl, omega arith, tt)))),
        ),
      )
      (omega arith)

target_tier_best_example :
    Admits (target_tier (pos 4) (pos 60)) 4 (pos 60) × (target_tier (pos 4) (pos 60) ≤ 3)
target_tier_best_example = target_tier_best 4 (pos 60) 3 (ground arith)

update_task_dsq_type_span_example :
    (update_task_dsq_type false half_busy 5000).current_dsq_type
    ≡ max (optimistic half_busy 5000) (min 4 (pessimistic half_busy 5000))
update_task_dsq_type_span_example = update_task_dsq_type_span half_busy 5000 (omega arith)

abbrev mostly_runs : TaskCtx
mostly_runs = record half_busy { duty = pos 845 }

steady : mostly_runs.current_dsq_type ≡ target_tier (pos (calc_crit mostly_runs 5000)) (pos 850)
steady =
    ground (arith, (target_tier_best (calc_crit mostly_runs 5000) (pos 850) 4 (ground arith)).0)

below : pos 845 ≤ℤ pos 850 +ℤ pos duty_hyst
unfolding ◌+ℤ◌
below = omega arith

above : pos 850 ≤ℤ pos 845 +ℤ pos duty_hyst
unfolding ◌+ℤ◌
above = omega arith

update_task_dsq_type_stable_example :
    (update_task_dsq_type false mostly_runs 5000).current_dsq_type ≡ 4
update_task_dsq_type_stable_example =
    update_task_dsq_type_stable mostly_runs 5000 (pos 850) (omega arith) steady below above
