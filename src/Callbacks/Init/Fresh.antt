-- ===== src/Callbacks/Init/Fresh.antt =====
-- source/lunar.bpf.c: what `lunar_init` resets in the context of a cpu.
use lunar_sched.Base.{ℕ, ◌≡◌, refl, false, Option, none, some}
use lunar_sched.Callbacks.Init.{reset_cpu}
use lunar_sched.Datatypes.{DispatchCtx}
use lunar_sched.Defines.{dsq_type_empty}

-- A cpu's context runs nothing, and has no override and no preemption under way; its tiers below LC and its last
-- override count from a reading of the clock.
pub record Fresh (d : DispatchCtx) : Type 0 where
  pub now : ℕ
  pub runs_nothing : d.current_task_dsq_type ≡ dsq_type_empty
  pub no_override : d.override_left ≡ 0
  pub no_override_tier : d.override_tier ≡ dsq_type_empty
  pub no_preemption : d.preempt_pending ≡ false
  pub since : d.last_override_ts ≡ now
  pub interactive : d.tier_head_ts 2 ≡ now
  pub normal : d.tier_head_ts 3 ≡ now
  pub greedy : d.tier_head_ts 4 ≡ now

abbrev pub IsFresh : Option DispatchCtx → Type 0
IsFresh none = ⊥
IsFresh (some d) = Fresh d

pub reset_cpu-Fresh : (now : ℕ) (d : DispatchCtx) → Fresh (reset_cpu now d)
unfolding reset_cpu
reset_cpu-Fresh now d = record {
  now = now;
  runs_nothing = refl;
  no_override = refl;
  no_override_tier = refl;
  no_preemption = refl;
  since = refl;
  interactive = refl;
  normal = refl;
  greedy = refl;
}
