-- ===== src/Dispatch/Priority.antt =====
-- source/dispatches.h: the order between the tiers of a cpu's own queues.
pub mod Whole
use lunar_sched.Base.{
  ℕ, ◌≤◌, ◌<◌, ◌≡◌, ◌≢◌, refl, sym, ap, subst, ◌∙◌, ◌⊎◌, inl, inr, Bool, true, false, Option, none,
  some, arith, Bool-cases, Option-cases, if_cases, ◌==◌, ltb,
}
use lunar_sched.Cpus.{get_dispatch_ctx}
use lunar_sched.Datatypes.{DispatchCtx}
use lunar_sched.Defines.{dsq_type_empty}
use lunar_sched.Dispatch.Conserve.{
  Quiet, here, read, drew, missed, Hits, Gives, Took, quiet, take_from_local_tier-Hits,
}
use lunar_sched.Dispatch.Conserve.Whole.{dispatch_dsq_per_cpu_lc}
use lunar_sched.Dispatch.Logic.{Searches, Tests}
use lunar_sched.Dispatch.Logic.Parts.{
  try_acquire_from_rt_cpu-Tests, take_from_local_tier-Tests, take_from_other_tier-Tests,
}
use lunar_sched.Dispatch.Order.{
  steal, serve_tier, serve_own, local_best, better_tier, serve_better, serve_starved,
  continue_override, serve_overrides, dispatch_dsq_per_cpu,
}
use lunar_sched.Dispatch.{
  Test, Action, return_if, return_when, try_acquire_from_rt_cpu, take_from_local_tier,
  take_from_other_tier, most_starved_tier,
}
use lunar_sched.Dsq.{get_cpu_dsq_from_type, dsq_queued}
use lunar_sched.Kernel.{Machine, World, Trace, read_clock, emit}
use lunar_sched.Tier.Target.{IsTier}

-- No override is in progress, and no tier is starved while the dispatch has taken no task.
pub record Calm (m : Machine) (cpu : ℕ) (w : World) : Type 0 where
  pub idle : (d : DispatchCtx) → w.cpus cpu ≡ some d → d.override_left ≡ 0
  pub fed :
      (d : DispatchCtx) (w' : World)
      → w.cpus cpu ≡ some d
      → Quiet w.trace w'.trace
      → most_starved_tier m w' d cpu (m.clock w.trace) ≡ dsq_type_empty

module _ (w : World) where
  -- Nothing was taken since `w`, and no context of a cpu has changed.
  abbrev pub Untouched : World → Type 0
  Untouched v = Quiet w.trace v.trace × (v.cpus ≡ w.cpus)

  abbrev pub Leaves : World → World → Type 0
  Leaves a b = Untouched a → Untouched b

  pub leaving : (m : Machine) (cpu : ℕ) → Searches m cpu (Took w.trace) Leaves
  leaving m cpu = record {
    still = λ v q. q;
    then_miss = λ a b c h k q. k (h q);
    then_hit = λ a b c d h k. tt;
    clock = λ now v q. (read now q.0, q.1);
    random = λ n v q. (drew n q.0, q.1);
    refused = λ a c v h src e q. (missed (get_cpu_dsq_from_type a c) q.0, q.1);
    taken = λ a c now v h src. tt;
  }

  -- A part of the dispatch that returns no tier worse than `tier`.
  pub record Within (tier : ℕ) (a : Action) : Type 0 where
    pub within : (v : World) → Untouched v → (1 ≤ (a v).0) × ((a v).0 ≤ tier)

  pub return_if-Within :
      (tier : ℕ) (f : Test) (a : ℕ) (rest : Action)
      → 1 ≤ a
      → ((v : World) → (f v).0 ≡ true → a ≤ tier)
      → Tests (Took w.trace) Leaves a f
      → Hits w.trace f ⊎ Within tier rest
      → Within tier (return_if f a rest)
  unfolding return_if
  return_if-Within tier f a rest low high looks h = record {
    within = λ v q. elim (looks v) [
      | inl (e, _) ↦ rw e (low, high v e)
      | inr (e, leaves) ↦ elim h [
        | inl k ↦ absurd (ground (arith, e, k.hit v q.0))
        | inr k ↦ rw e (k.within (f v).1 (leaves q))
      ]
    ];
  }
