-- ===== src/Dispatch/Logic/Whole.antt =====
-- The rules for the paragraphs of `dispatch_dsq_per_cpu`, and for the whole.
use lunar_sched.Base.{
  ℕ, ◌≡◌, refl, ◌⊎◌, inl, inr, Bool, true, false, arith, Bool-cases, Option-cases, if_cases, ltb,
  ◌==◌,
}
use lunar_sched.Cpus.{get_dispatch_ctx}
use lunar_sched.Datatypes.{DispatchCtx}
use lunar_sched.Defines.{dsq_type_empty}
use lunar_sched.Dispatch.{Test, Action, return_if, return_when, most_starved_tier}
use lunar_sched.Dispatch.Logic.{Rules, IsLabel, Tested, Tests, Returned, Returns}
use lunar_sched.Dispatch.Logic.Parts.{
  try_acquire_from_rt_cpu-Tests, take_from_local_tier-Tests, take_from_other_tier-Tests,
}
use lunar_sched.Dispatch.Order.{
  steal_tiers, nothing_found, steal, serve_tier, serve_own, local_best, better_tier, serve_better,
  begin_override, serve_starved, end_override, is_override_tier, override_step, continue_override,
  serve_overrides, dispatch_dsq_per_cpu,
}
use lunar_sched.Dispatch.Starve.{most_starved_tier-overrun}
use lunar_sched.Kernel.{Machine, World}
use lunar_sched.Tier.Target.{IsTier}

module _ {m : Machine} {cpu : ℕ} {Hit : ℕ → World → World → Type 0} {Miss : World → World → Type 0}
    (rules : Rules m cpu Hit Miss) where
  then-Returned :
      (a b : World) (r : ℕ × World) → Miss a b → Returned Hit Miss b r → Returned Hit Miss a r
  then-Returned a b r h (inl (t, k)) = inl (t, rules.then_hit r.0 a b r.1 h k)
  then-Returned a b r h (inr (t, k)) = inr (t, rules.then_miss a b r.1 h k)

  return_if-Returns :
      (f : Test) (tier : ℕ) (rest : Action)
      → IsTier tier
      → Tests Hit Miss tier f
      → Returns Hit Miss rest
      → Returns Hit Miss (return_if f tier rest)
  unfolding return_if
  return_if-Returns f tier rest t h k w = elim (h w) [
    | inl (e, hit) ↦ rw e (inl (t, hit))
    | inr (e, miss) ↦ rw e (then-Returned w _ _ miss (k _))
  ]

  return_when-Returns :
      (b : Bool) (rest : Action)
      → Returns Hit Miss rest
      → Returns Hit Miss (return_when b dsq_type_empty rest)
  unfolding return_when
  return_when-Returns b rest k w =
      if_cases (Returned Hit Miss w) b _ _ (λ _. inr (omega arith, rules.still w)) (λ _. k w)

  module _ (now : ℕ) where
    steal_tiers-Returns :
        (this_llc : Bool) (rest : Action)
        → Returns Hit Miss rest
        → Returns Hit Miss (steal_tiers m cpu now this_llc rest)
    unfolding steal_tiers
    steal_tiers-Returns this_llc rest k =
        return_if-Returns _ 1 _ (omega arith)
          (take_from_other_tier-Tests rules.searches 1 now this_llc (omega arith))
          (return_if-Returns _ 2 _ (omega arith)
            (take_from_other_tier-Tests rules.searches 2 now this_llc (omega arith))
            (return_if-Returns _ 3 _ (omega arith)
              (take_from_other_tier-Tests rules.searches 3 now this_llc (omega arith))
              (return_if-Returns _ 4 _ (omega arith)
                (take_from_other_tier-Tests rules.searches 4 now this_llc (omega arith)) k)))

    nothing_found-Returns : Returns Hit Miss (nothing_found m cpu now)
    unfolding nothing_found
    nothing_found-Returns w = inr (omega arith, rules.still w)

    steal-Returns : Returns Hit Miss (steal m cpu now)
    unfolding steal
    steal-Returns = steal_tiers-Returns true _ λ w.
        if_cases (Returned Hit Miss w) (ltb 1 m.nr_llcs) _ _
          (λ _. steal_tiers-Returns false _ nothing_found-Returns w) (λ _. nothing_found-Returns w)

    serve_tier-Returns :
        (tier : ℕ) (rest : Action)
        → IsTier tier
        → Returns Hit Miss rest
        → Returns Hit Miss (serve_tier m cpu now tier rest)
    unfolding serve_tier
    serve_tier-Returns tier rest t k =
        return_if-Returns _ tier _ t (try_acquire_from_rt_cpu-Tests rules.searches tier now t)
          (return_if-Returns _ tier _ t (take_from_local_tier-Tests rules.searches tier now t) k)

    serve_own-Returns : (prev_tier : ℕ) → Returns Hit Miss (serve_own m cpu now prev_tier)
    unfolding serve_own
    serve_own-Returns prev_tier = return_when-Returns _ _ (
        serve_tier-Returns 2 _ (omega arith) (
          return_when-Returns _ _ (
            serve_tier-Returns 3 _ (omega arith) (
              return_when-Returns _ _
                (serve_tier-Returns 4 _ (omega arith) (return_when-Returns _ _ steal-Returns))))))

    pub better_tier-Tests :
        (best tier : ℕ) → IsTier tier → Tests Hit Miss tier (better_tier m cpu now best tier)
    unfolding better_tier
    better_tier-Tests best tier t w =
        if_cases (Tested Hit Miss tier w) (ltb tier best) _ _
          (λ _. take_from_other_tier-Tests rules.searches tier now true t w)
          (λ _. inr (refl, rules.still w))

    serve_better-Returns : (prev_tier : ℕ) → Returns Hit Miss (serve_better m cpu now prev_tier)
    unfolding serve_better
    serve_better-Returns prev_tier w =
        if_cases (Returned Hit Miss w) (local_best m cpu now w prev_tier == dsq_type_empty) _ _
          (λ _. serve_own-Returns prev_tier w)
          λ _.
            return_if-Returns _ 1 _ (omega arith) (better_tier-Tests _ 1 (omega arith))
              (return_if-Returns _ 2 _ (omega arith) (better_tier-Tests _ 2 (omega arith)) (
                return_if-Returns _ 3 _ (omega arith) (better_tier-Tests _ 3 (omega arith))
                  (serve_own-Returns prev_tier)))
              w

    pub starved-IsTier :
        (w : World) (d : DispatchCtx)
        → (most_starved_tier m w d cpu now == dsq_type_empty) ≡ false
        → IsTier (most_starved_tier m w d cpu now)
    starved-IsTier w d e = ground (arith, most_starved_tier-overrun m w d cpu now)

    pub begin_override-IsLabel : (tier : ℕ) → IsLabel (begin_override m cpu now tier)
    unfolding begin_override
    begin_override-IsLabel tier d = (refl, refl, refl)

    pub end_override-IsLabel : IsLabel (end_override m cpu now)
    unfolding end_override
    end_override-IsLabel d = (refl, refl, refl)

    serve_starved-Returns :
        (prev_tier : ℕ) (d : DispatchCtx) → Returns Hit Miss (serve_starved m cpu now prev_tier d)
    unfolding serve_starved
    serve_starved-Returns prev_tier d w =
        let starved : ℕ = most_starved_tier m w d cpu now in
        if_cases (Returned Hit Miss w) (starved == dsq_type_empty) _ _
          (λ _. serve_better-Returns prev_tier w)
          λ some_tier.
            elim (take_from_local_tier-Tests rules.searches starved now
              (starved-IsTier w d some_tier) w) [
                | inl (e, hit) ↦ rw e (
                    inl (
                      starved-IsTier w d some_tier,
                      rules.label_hit starved (begin_override m cpu now starved) w _
                          (begin_override-IsLabel starved) hit,
                    ))
                | inr (e, miss) ↦ rw e (then-Returned w _ _ miss (serve_better-Returns prev_tier _))
              ]

    pub override_step-Tests :
        (d : DispatchCtx) (w : World)
        → IsTier d.override_tier × Tested Hit Miss d.override_tier w (override_step m cpu now d w)
          ⊎ ((override_step m cpu now d w).0 ≡ false) × Miss w (override_step m cpu now d w).1
    unfolding override_step is_override_tier
    override_step-Tests d w = elim (Bool-cases (is_override_tier m cpu now d.override_tier)) [
      | inl e ↦ rw e (
          let t : IsTier d.override_tier = ground arith in
          inl (t, take_from_local_tier-Tests rules.searches d.override_tier now t w))
      | inr e ↦ rw e (inr (refl, rules.still w))
    ]

    -- After an override that has nothing more to take.
    override_ended :
        (prev_tier : ℕ) (d : DispatchCtx) (w : World)
        → (override_step m cpu now d w).0 ≡ false
        → Miss w (override_step m cpu now d w).1
        → (d.override_left == 0) ≡ false
        → Returned Hit Miss w (continue_override m cpu now prev_tier d w)
    unfolding continue_override
    override_ended prev_tier d w e miss left =
        rw (left, e)
          (then-Returned w _ _ miss (
            then-Returned _ _ _ (rules.label_miss (end_override m cpu now) _ end_override-IsLabel)
              (serve_starved-Returns prev_tier _ _)))

    continue_override-Returns :
        (prev_tier : ℕ) (d : DispatchCtx)
        → Returns Hit Miss (continue_override m cpu now prev_tier d)
    unfolding continue_override
    continue_override-Returns prev_tier d w = elim (Bool-cases (d.override_left == 0)) [
      | inl e ↦ rw e (serve_starved-Returns prev_tier d w)
      | inr left ↦ (elim (override_step-Tests d w) [
        | inl (t, inl (e, hit)) ↦ rw (left, e) (inl (t, hit))
        | inl (t, inr (e, miss)) ↦ override_ended prev_tier d w e miss left
        | inr (e, miss) ↦ override_ended prev_tier d w e miss left
      ])
    ]

    serve_overrides-Returns :
        (prev_tier : ℕ) → Returns Hit Miss (serve_overrides m cpu now prev_tier)
    unfolding serve_overrides
    serve_overrides-Returns prev_tier w = elim (Option-cases (get_dispatch_ctx w cpu)) [
      | inl e ↦ rw (e, serve_overrides) (serve_better-Returns prev_tier w)
      | inr (d, e) ↦ rw (e, serve_overrides) (continue_override-Returns prev_tier d w)
    ]

  pub dispatch_dsq_per_cpu-Returns :
      (prev_tier : ℕ) → Returns Hit Miss (dispatch_dsq_per_cpu m cpu prev_tier)
  unfolding dispatch_dsq_per_cpu
  dispatch_dsq_per_cpu-Returns prev_tier w =
      then-Returned w _ _ (rules.clock _ w)
        (serve_tier-Returns _ 1 _ (omega arith) (serve_overrides-Returns _ prev_tier) _)
