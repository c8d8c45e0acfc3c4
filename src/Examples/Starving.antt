-- ===== src/Examples/Starving.antt =====
-- A starved tier on cpu 1 of the sample machine, and the override that goes on.
use lunar_sched.Base.{ℕ, ◌<◌, ◌≡◌, ◌≢◌, refl, inl, some, none, [], ◌∷◌, ◌==◌, if◌then◌else◌, arith}
use lunar_sched.Boost.Wake.{charges}
use lunar_sched.Boost.{charge_override}
use lunar_sched.Cpus.{cpu_is_online, cpu_llc_id}
use lunar_sched.Datatypes.{DispatchCtx}
use lunar_sched.Defines.{starve_override_budget_ns}
use lunar_sched.Dispatch.Begun.{begun, NoLc}
use lunar_sched.Dispatch.Fair.{dispatch_dsq_per_cpu_fair}
use lunar_sched.Dispatch.Order.{dispatch_dsq_per_cpu}
use lunar_sched.Dispatch.Override.{dispatch_dsq_per_cpu_override}
use lunar_sched.Dispatch.Served.{GivesOwn, Begins}
use lunar_sched.Dispatch.Starve.{Late, Clocked}
use lunar_sched.Dispatch.{try_acquire_from_rt_cpu, search_cpus, sweep, rescue_from, rt_victim}
use lunar_sched.Dsq.{get_cpu_dsq_from_type, dsq_queued}
use lunar_sched.Examples.Sample.{machine, runs_normal, busy_world}
use lunar_sched.Kernel.{World}

waits : 0 < dsq_queued machine (begun machine 1 busy_world) (get_cpu_dsq_from_type 2 1)
unfolding try_acquire_from_rt_cpu search_cpus sweep rescue_from rt_victim cpu_is_online cpu_llc_id
    dsq_queued get_cpu_dsq_from_type
waits = omega arith

late : Late machine (begun machine 1 busy_world) runs_normal 1 500_000_000 2
late = record { queued = waits; over = omega arith }

-- The context of cpu 1 after that dispatch, and after 0.7ms of runs of the INTERACTIVE tier.
abbrev overriding : DispatchCtx
overriding = record runs_normal {
  tier_head_ts = λ tier. if tier == 2 then 500_000_000 else 0;
  last_override_ts = 500_000_000;
  override_tier = 2;
  override_left = starve_override_budget_ns;
}

abbrev world_with : DispatchCtx → World
world_with d = record busy_world {
  maps = record { tasks = λ a. none; cpus = λ c. some d; scratch = none; nr_rt_busy = 1 };
}

abbrev begins : Begins machine 1 busy_world 2 (world_with overriding)
begins = record {
  dctx = overriding;
  known = refl;
  override = refl;
  left = refl;
  since = refl;
  served = refl;
}

-- Later the cpu runs a task of that tier, and another tier was served in between.
abbrev charged : DispatchCtx
charged = record (charges 2 (300_000 ∷ 400_000 ∷ []) overriding) {
  current_task_dsq_type = 2;
  tier_head_ts = λ tier. if tier == 3 then 500_600_000 else 500_000_000;
}

abbrev later : World
later = world_with charged

later_first : NoLc machine 1 later
unfolding try_acquire_from_rt_cpu search_cpus sweep rescue_from rt_victim charge_override
    cpu_is_online cpu_llc_id dsq_queued get_cpu_dsq_from_type
later_first = record { no_rescue = refl; empty = refl }

later_waits : 0 < dsq_queued machine (begun machine 1 later) (get_cpu_dsq_from_type 2 1)
unfolding try_acquire_from_rt_cpu search_cpus sweep rescue_from rt_victim cpu_is_online cpu_llc_id
    dsq_queued get_cpu_dsq_from_type
later_waits = omega arith

later_gives : GivesOwn machine 1 later 2
unfolding try_acquire_from_rt_cpu search_cpus sweep rescue_from rt_victim cpu_is_online cpu_llc_id
    dsq_queued
later_gives h = ground arith

dispatch_dsq_per_cpu_override_example : (dispatch_dsq_per_cpu machine 1 3 later).0 ≡ 2
dispatch_dsq_per_cpu_override_example =
    dispatch_dsq_per_cpu_override machine 1 busy_world (world_with overriding) later 2 3
      (300_000 ∷ 400_000 ∷ []) begins charged (inl refl) refl
      (record { same_tier = refl; same_left = refl }) (omega arith) later_first later_waits
      later_gives

-- Cpu 1 served NORMAL 1ms ago, when its INTERACTIVE task was late already.
abbrev overtaken : DispatchCtx
overtaken = record runs_normal { tier_head_ts = λ tier. if tier == 2 then 0 else 499_000_000 }

fair_first : NoLc machine 1 (world_with overtaken)
unfolding try_acquire_from_rt_cpu search_cpus sweep rescue_from rt_victim cpu_is_online cpu_llc_id
    dsq_queued get_cpu_dsq_from_type
fair_first = record { no_rescue = refl; empty = refl }

fair_clock : Clocked machine (begun machine 1 (world_with overtaken)) overtaken 1 500_000_000
fair_clock = record {
  interactive = omega arith;
  normal = omega arith;
  greedy = omega arith;
  fits = omega arith;
}

fair_waits :
    0 < dsq_queued machine (begun machine 1 (world_with overtaken)) (get_cpu_dsq_from_type 2 1)
unfolding try_acquire_from_rt_cpu search_cpus sweep rescue_from rt_victim cpu_is_online cpu_llc_id
    dsq_queued get_cpu_dsq_from_type
fair_waits = omega arith

fair_gives : (tier : ℕ) → GivesOwn machine 1 (world_with overtaken) tier
unfolding try_acquire_from_rt_cpu search_cpus sweep rescue_from rt_victim cpu_is_online cpu_llc_id
    dsq_queued
fair_gives tier h = ground arith

dispatch_dsq_per_cpu_fair_example : (dispatch_dsq_per_cpu machine 1 3 (world_with overtaken)).0 ≢ 3
dispatch_dsq_per_cpu_fair_example =
    dispatch_dsq_per_cpu_fair machine 1 3 2 3 499_000_000 overtaken (world_with overtaken)
      fair_first refl refl (omega arith) (inl refl) fair_clock
      (record { late = omega arith; since = omega arith; past = omega arith }) fair_waits fair_gives
