-- ===== src/Dispatch/Override.antt =====
-- source/dispatches.h: an override from one dispatch to the next, with the charges in between.
use lunar_sched.Base.{
  ℕ, ◌-◌, ◌<◌, ◌≡◌, refl, sym, ap, subst, ◌∙◌, true, false, some, List, arith, ◌==◌,
}
use lunar_sched.Boost.Wake.{charges, total, charge_override_total}
use lunar_sched.Datatypes.{DispatchCtx}
use lunar_sched.Defines.{starve_override_budget_ns}
use lunar_sched.Dispatch.Order.{
  is_override_tier, override_step, continue_override, dispatch_dsq_per_cpu,
}
use lunar_sched.Dispatch.Begun.{begun, NoLc}
use lunar_sched.Dispatch.Served.{
  GivesOwn, Begins, take_from_local_tier-moved, dispatch-continue_override,
}
use lunar_sched.Dispatch.Starve.{BelowLc}
use lunar_sched.Dsq.{get_cpu_dsq_from_type, dsq_queued}
use lunar_sched.Kernel.{Machine, World}

module _ (m : Machine) (cpu : ℕ) where
  continue_override-goes_on :
      (d : DispatchCtx) (w : World) (prev_tier : ℕ)
      → (d.override_left == 0) ≡ false
      → BelowLc d.override_tier
      → 0 < dsq_queued m (begun m cpu w) (get_cpu_dsq_from_type d.override_tier cpu)
      → GivesOwn m cpu w d.override_tier
      → (continue_override m cpu (m.clock w.trace) prev_tier d (begun m cpu w)).0 ≡ d.override_tier
  unfolding continue_override override_step is_override_tier
  continue_override-goes_on d w prev_tier left h waits gives =
      let in_range : is_override_tier m cpu (m.clock w.trace) d.override_tier ≡ true =
        ground (arith, h) in
      rw (left, in_range, take_from_local_tier-moved m cpu w d.override_tier waits gives) refl

  -- The context of a cpu after runs of the tier whose override was begun in `w`.
  record Charged (w : World) (tier : ℕ) (runs : List ℕ) (d : DispatchCtx) : Type 0 where
    same : d.override_tier ≡ tier
    left : d.override_left ≡ starve_override_budget_ns - total runs

  charges-Charged :
      (w w' : World) (tier : ℕ) (runs : List ℕ) (b : Begins m cpu w tier w')
      → Charged w tier runs (charges tier runs b.dctx)
  charges-Charged w w' tier runs b =
      let after : charges tier runs b.dctx
          ≡ record b.dctx { override_left = b.dctx.override_left - total runs } =
        ap (λ a. charges a runs b.dctx) (sym b.override) ∙ charge_override_total b.dctx runs in
      record {
        same = ap DispatchCtx.override_tier after ∙ b.override;
        left = ap DispatchCtx.override_left after ∙ ap (λ a. a - total runs) b.left;
      }

  -- What the charges of the runs leave of an override: its tier and its rest. The other fields may have changed.
  pub record Left (tier : ℕ) (runs : List ℕ) (begun_with d : DispatchCtx) : Type 0 where
    pub same_tier : d.override_tier ≡ (charges tier runs begun_with).override_tier
    pub same_left : d.override_left ≡ (charges tier runs begun_with).override_left

  -- Once a dispatch has begun an override of a tier, every later dispatch of the cpu takes that tier again, in any world
  -- in which the cpu's override is what the charges for the runs of the tier in between have left of it, whatever else has
  -- changed: as long as these were charged for less than the budget of 1ms, the dispatch finds no LC task to take, in the
  -- cpu's own queue or on the cpus of its LLC that realtime tasks have taken, and the queue of the tier holds a task and
  -- gives it.
  pub dispatch_dsq_per_cpu_override :
      (w w' later : World) (tier prev_tier : ℕ) (runs : List ℕ) (b : Begins m cpu w tier w')
      (d : DispatchCtx)
      → BelowLc tier
      → later.cpus cpu ≡ some d
      → Left tier runs b.dctx d
      → total runs < starve_override_budget_ns
      → NoLc m cpu later
      → 0 < dsq_queued m (begun m cpu later) (get_cpu_dsq_from_type tier cpu)
      → GivesOwn m cpu later tier
      → (dispatch_dsq_per_cpu m cpu prev_tier later).0 ≡ tier
  dispatch_dsq_per_cpu_override w w' later tier prev_tier runs b d h known kept less none_first
        waits gives =
      let c : Charged w tier runs (charges tier runs b.dctx) = charges-Charged w w' tier runs b in
      let same : d.override_tier ≡ tier = kept.same_tier ∙ c.same in
      let left : (d.override_left == 0) ≡ false = ground (arith, kept.same_left, c.left, less) in
      ap (λ (r : ℕ × World). r.0)
        (dispatch-continue_override m cpu later d prev_tier none_first known)
      ∙ continue_override-goes_on d later prev_tier left (ground (arith, same, h))
          (omega (
            arith,
            ap (λ a. dsq_queued m (begun m cpu later) (get_cpu_dsq_from_type a cpu)) same,
            waits,
          ))
          (subst (GivesOwn m cpu later) (sym same) gives)
      ∙ same
