-- ===== src/Dispatch/Priority/Whole.antt =====
-- The paragraphs of `dispatch_dsq_per_cpu`, each of which takes no worse tier, and the whole of it.
use lunar_sched.Base.{
  ℕ, ◌≤◌, ◌≡◌, refl, sym, ap, subst, ◌∙◌, ◌⊎◌, inl, inr, Bool, true, false, Option, some, arith,
  Bool-cases, Option-cases, ◌==◌, ltb,
}
use lunar_sched.Cpus.{get_dispatch_ctx}
use lunar_sched.Datatypes.{DispatchCtx}
use lunar_sched.Defines.{dsq_type_empty}
use lunar_sched.Dispatch.Conserve.{here, read, Hits, Gives, Took, take_from_local_tier-Hits}
use lunar_sched.Dispatch.Logic.{Tests}
use lunar_sched.Dispatch.Logic.Parts.{
  try_acquire_from_rt_cpu-Tests, take_from_local_tier-Tests, take_from_other_tier-Tests,
}
use lunar_sched.Dispatch.Order.{
  serve_tier, serve_own, local_best, better_tier, serve_better, serve_starved, continue_override,
  serve_overrides, dispatch_dsq_per_cpu,
}
use lunar_sched.Dispatch.{Action, return_if, return_when, take_from_local_tier, most_starved_tier}
use lunar_sched.Dsq.{get_cpu_dsq_from_type, dsq_queued}
use lunar_sched.Kernel.{Machine, World}
use lunar_sched.Tier.Target.{IsTier}
use lunar_sched.Dispatch.Priority.{Calm, Untouched, Leaves, leaving, Within, return_if-Within}

module _ (m : Machine) (cpu tier : ℕ) (w : World) (now : ℕ)
    (g : Gives m (get_cpu_dsq_from_type tier cpu) w.trace) where
  serve_tier-Within :
      (a : ℕ) (rest : Action)
      → IsTier a
      → a ≤ tier
      → (a ≡ tier) ⊎ Within w tier rest
      → Within w tier (serve_tier m cpu now a rest)
  unfolding serve_tier
  serve_tier-Within a rest t high h =
      return_if-Within w tier _ a _ t.0 (λ v e. high)
        (try_acquire_from_rt_cpu-Tests (leaving w m cpu) a now t)
        (inr (
          return_if-Within w tier _ a rest t.0 (λ v e. high)
            (take_from_local_tier-Tests (leaving w m cpu) a now t)
            (elim h [
              | inl same ↦ inl (
                  subst (λ b. Hits w.trace (take_from_local_tier m b cpu now)) (sym same)
                    (take_from_local_tier-Hits w.trace m cpu now tier g))
              | inr k ↦ inr k
            ])))

  return_when-Within :
      (b : Bool) (a : ℕ) (rest : Action)
      → b ≡ false
      → Within w tier rest
      → Within w tier (return_when b a rest)
  unfolding return_when
  return_when-Within b a rest h k = record { within = λ v q. rw h (k.within v q) }

  -- A queue of the cpu has a task, so the best tier of the cpu is that one or a better one.
  abbrev AtMost : ℕ → World → ℕ → Type 0
  AtMost prev_tier v a =
      a ≤ prev_tier
      → (dsq_queued m v (get_cpu_dsq_from_type a cpu) == 0) ≡ false
      → local_best m cpu now v prev_tier ≤ a

  local_best_interactive : (prev_tier : ℕ) (v : World) → AtMost prev_tier v 2
  unfolding local_best
  local_best_interactive prev_tier v h waits = ground arith

  local_best_normal : (prev_tier : ℕ) (v : World) → AtMost prev_tier v 3
  unfolding local_best
  local_best_normal prev_tier v h waits = ground arith

  local_best_greedy : (prev_tier : ℕ) (v : World) → AtMost prev_tier v 4
  unfolding local_best
  local_best_greedy prev_tier v h waits = ground arith

  local_best_low :
      (prev_tier : ℕ)
      → 2 ≤ tier
      → tier ≤ 4
      → tier ≤ prev_tier
      → (v : World) → (dsq_queued m v (get_cpu_dsq_from_type tier cpu) == 0) ≡ false
      → local_best m cpu now v prev_tier ≤ tier
  local_best_low prev_tier below last not_better v waits = elim cases [
    | inl e ↦
        subst (AtMost prev_tier v) (sym e) (local_best_interactive prev_tier v) not_better waits
    | inr (inl e) ↦
        subst (AtMost prev_tier v) (sym e) (local_best_normal prev_tier v) not_better waits
    | inr (inr e) ↦
        subst (AtMost prev_tier v) (sym e) (local_best_greedy prev_tier v) not_better waits
  ]
    where
      cases : (tier ≡ 2) ⊎ ((tier ≡ 3) ⊎ (tier ≡ 4))
      cases = ground arith

  better_below :
      (best a : ℕ) (v : World) → best ≤ tier → (better_tier m cpu now best a v).0 ≡ true → a ≤ tier
  unfolding better_tier
  better_below best a v low hit = ground arith

  better_tier-Looks :
      (best a : ℕ) → IsTier a → Tests (Took w.trace) (Leaves w) a (better_tier m cpu now best a)
  unfolding better_tier
  better_tier-Looks best a t v = elim (Bool-cases (ltb a best)) [
    | inl e ↦ rw e (take_from_other_tier-Tests (leaving w m cpu) a now true t v)
    | inr e ↦ rw e (inr (refl, (leaving w m cpu).still v))
  ]

  better_step :
      (best a : ℕ) (rest : Action)
      → IsTier a
      → best ≤ tier
      → Within w tier rest
      → Within w tier (return_if (better_tier m cpu now best a) a rest)
  better_step best a rest t low k =
      return_if-Within w tier _ a rest t.0 (λ v e. better_below best a v low e)
        (better_tier-Looks best a t) (inr k)

  module _ (prev_tier : ℕ) (below : 2 ≤ tier) (last : tier ≤ 4)
      (not_better : tier ≤ prev_tier) where
    -- The tier is one of the first ones, or a later one.
    serve_own-Within : Within w tier (serve_own m cpu now prev_tier)
    unfolding serve_own
    serve_own-Within = return_when-Within _ _ _ (ground arith) (
        serve_tier-Within 2 _ (omega arith) below (elim (Bool-cases (2 == tier)) [
          | inl e ↦ inl (ground (arith, e))
          | inr e ↦ inr (
              return_when-Within _ _ _ (ground (arith, e)) (
                serve_tier-Within 3 _ (omega arith) (ground (arith, e))
                  (elim (Bool-cases (3 == tier)) [
                    | inl k ↦ inl (ground (arith, k))
                    | inr k ↦ inr (
                        return_when-Within _ _ _ (ground (arith, e, k)) (
                          serve_tier-Within 4 _ (omega arith) (ground (arith, e, k))
                            (inl (ground (arith, e, k)))))
                  ])))
        ]))

    serve_better-Within : Within w tier (serve_better m cpu now prev_tier)
    unfolding serve_better
    serve_better-Within = record {
      within = λ v q.
          let best : ℕ = local_best m cpu now v prev_tier in
          let low : best ≤ tier =
            local_best_low prev_tier below last not_better v (g.waits v q.0) in
          let all = better_step best 1 _ (omega arith) low (
            better_step best 2 _ (omega arith) low
              (better_step best 3 _ (omega arith) low serve_own-Within)) in
          elim (Bool-cases (best == dsq_type_empty)) [
            | inl e ↦ rw e (serve_own-Within.within v q)
            | inr e ↦ rw e (all.within v q)
          ];
    }

    serve_starved-Within :
        (d : DispatchCtx) (v : World)
        → Untouched w v
        → most_starved_tier m v d cpu now ≡ dsq_type_empty
        → (let r = serve_starved m cpu now prev_tier d v in (1 ≤ r.0) × (r.0 ≤ tier))
    unfolding serve_starved
    serve_starved-Within d v q fed =
        let none : (most_starved_tier m v d cpu now == dsq_type_empty) ≡ true =
          ground (arith, fed) in
        rw none (serve_better-Within.within v q)

    continue_override-Within :
        (d : DispatchCtx) (v : World)
        → Untouched w v
        → d.override_left ≡ 0
        → most_starved_tier m v d cpu now ≡ dsq_type_empty
        → (let r = continue_override m cpu now prev_tier d v in (1 ≤ r.0) × (r.0 ≤ tier))
    unfolding continue_override
    continue_override-Within d v q idle fed =
        let none_left : (d.override_left == 0) ≡ true = ground (arith, idle) in
        rw none_left (serve_starved-Within d v q fed)

    serve_overrides-Within :
        now ≡ m.clock w.trace → Calm m cpu w → Within w tier (serve_overrides m cpu now prev_tier)
    unfolding serve_overrides
    serve_overrides-Within at calm = record {
      within = λ v q. elim (Option-cases (get_dispatch_ctx v cpu)) [
        | inl e ↦ rw (e, serve_overrides) (serve_better-Within.within v q)
        | inr (d, e) ↦
            let known : w.cpus cpu ≡ some d =
              sym (ap (λ (f : ℕ → Option DispatchCtx). f cpu) q.1) ∙ e in
            rw (e, serve_overrides)
              (continue_override-Within d v q (calm.idle d known) (
                subst (λ n. most_starved_tier m v d cpu n ≡ dsq_type_empty) (sym at)
                  (calm.fed d v known q.0)))
      ];
    }

-- A cpu with no override in progress and no starved tier, and with a task of a tier in its own queue, takes a
-- task of that tier or of a better one, unless it runs a task of a better tier than that, when that queue gives a
-- task for as long as the dispatch has taken none.
pub dispatch_dsq_per_cpu_no_worse :
    (m : Machine) (cpu tier prev_tier : ℕ) (w : World)
    → IsTier tier
    → tier ≤ prev_tier
    → Gives m (get_cpu_dsq_from_type tier cpu) w.trace
    → Calm m cpu w
    → (let r = dispatch_dsq_per_cpu m cpu prev_tier w in (1 ≤ r.0) × (r.0 ≤ tier))
unfolding dispatch_dsq_per_cpu
dispatch_dsq_per_cpu_no_worse m cpu tier prev_tier w t not_better g calm =
    let now : ℕ = m.clock w.trace in
    (serve_tier-Within m cpu tier w now g 1 _ (omega arith) t.0 (elim (Bool-cases (1 == tier)) [
      | inl e ↦ inl (ground (arith, e))
      | inr e ↦ inr (
          serve_overrides-Within m cpu tier w now g prev_tier (ground (arith, e)) t.1 not_better
            refl calm)
    ])).within
      _ (read now here, refl)
