-- ===== src/Dispatch/Continue.antt =====
-- source/dispatches.h: how a dispatch ends that has a previous task to go on with.
use lunar_sched.Base.{ℕ, ◌≤◌, inl, inr, Bool, arith, Bool-cases, Option-cases, if_cases, ◌==◌}
use lunar_sched.Cpus.{get_dispatch_ctx, modify_cpu}
use lunar_sched.Datatypes.{DispatchCtx}
use lunar_sched.Defines.{dsq_type_empty}
use lunar_sched.Dispatch.Order.{
  serve_tier, serve_own, local_best, better_tier, serve_better, serve_starved, end_override,
  override_step, is_override_tier, continue_override, serve_overrides, dispatch_dsq_per_cpu,
}
use lunar_sched.Dispatch.Starve.{most_starved_tier-overrun}
use lunar_sched.Dispatch.{
  Test, Action, return_if, return_when, take_from_local_tier, most_starved_tier,
}
use lunar_sched.Kernel.{Machine, World}

-- A part of the dispatch that never finds nothing at all.
record Ends (a : Action) : Type 0 where
  at_most : (w : World) → (a w).0 ≤ 5

return_if-Ends :
    (f : Test) (tier : ℕ) (rest : Action) → tier ≤ 5 → Ends rest → Ends (return_if f tier rest)
unfolding return_if
return_if-Ends f tier rest h k = record {
  at_most = λ w.
      if_cases (λ (r : ℕ × World). r.0 ≤ 5) (f w).0 (tier, (f w).1) (rest (f w).1) (λ _. h)
        (λ _. k.at_most (f w).1);
}

return_when-Ends : (b : Bool) (rest : Action) → Ends rest → Ends (return_when b dsq_type_empty rest)
unfolding return_when
return_when-Ends b rest k = record {
  at_most = λ w.
      if_cases (λ (r : ℕ × World). r.0 ≤ 5) b (dsq_type_empty, w) (rest w) (λ _. omega arith)
        (λ _. k.at_most w);
}

module _ (m : Machine) (cpu now : ℕ) where
  serve_tier-Ends :
      (tier : ℕ) (rest : Action) → tier ≤ 5 → Ends rest → Ends (serve_tier m cpu now tier rest)
  unfolding serve_tier
  serve_tier-Ends tier rest h k = return_if-Ends _ tier _ h (return_if-Ends _ tier rest h k)

  module _ (prev_tier : ℕ) (h : prev_tier ≤ 4) where
    -- The last test of the own queues ends the search.
    serve_own-Ends : Ends (serve_own m cpu now prev_tier)
    unfolding serve_own return_when
    serve_own-Ends = return_when-Ends _ _ (
        serve_tier-Ends 2 _ (omega arith) (
          return_when-Ends _ _ (
            serve_tier-Ends 3 _ (omega arith) (
              return_when-Ends _ _ (
                serve_tier-Ends 4 _ (omega arith) (record { at_most = λ w. ground (arith, h) }))))))

    serve_better-Ends : Ends (serve_better m cpu now prev_tier)
    unfolding serve_better
    serve_better-Ends = record {
      at_most = λ w.
          let best : ℕ = local_best m cpu now w prev_tier in
          let all = return_if-Ends (better_tier m cpu now best 1) 1 _ (omega arith) (
            return_if-Ends (better_tier m cpu now best 2) 2 _ (omega arith)
              (return_if-Ends (better_tier m cpu now best 3) 3 _ (omega arith) serve_own-Ends)) in
          elim (Bool-cases (best == dsq_type_empty)) [
            | inl e ↦ rw e (serve_own-Ends.at_most w)
            | inr e ↦ rw e (all.at_most w)
          ];
    }

    serve_starved-Ends : (d : DispatchCtx) → Ends (serve_starved m cpu now prev_tier d)
    unfolding serve_starved
    serve_starved-Ends d = record {
      at_most = λ w.
          let r : Bool × World =
            take_from_local_tier m (most_starved_tier m w d cpu now) cpu now w in
          ground (
            arith,
            most_starved_tier-overrun m w d cpu now,
            serve_better-Ends.at_most w,
            serve_better-Ends.at_most r.1,
          );
    }

    continue_override-Ends : (d : DispatchCtx) → Ends (continue_override m cpu now prev_tier d)
    unfolding continue_override override_step is_override_tier
    continue_override-Ends d = record {
      at_most = λ w.
          let r : Bool × World = take_from_local_tier m d.override_tier cpu now w in
          let ended = serve_starved-Ends (end_override m cpu now d) in
          ground (
            arith,
            (serve_starved-Ends d).at_most w,
            ended.at_most (modify_cpu cpu (end_override m cpu now) r.1),
            ended.at_most (modify_cpu cpu (end_override m cpu now) w),
          );
    }

    serve_overrides-Ends : Ends (serve_overrides m cpu now prev_tier)
    unfolding serve_overrides
    serve_overrides-Ends = record {
      at_most = λ w. elim (Option-cases (get_dispatch_ctx w cpu)) [
        | inl e ↦ rw (e, serve_overrides) (serve_better-Ends.at_most w)
        | inr (d, e) ↦ rw (e, serve_overrides) ((continue_override-Ends d).at_most w)
      ];
    }

pub dispatch_dsq_per_cpu_ends :
    (m : Machine) (cpu prev_tier : ℕ) (w : World)
    → prev_tier ≤ 4
    → (dispatch_dsq_per_cpu m cpu prev_tier w).0 ≤ 5
unfolding dispatch_dsq_per_cpu
dispatch_dsq_per_cpu_ends m cpu prev_tier w h =
    (serve_tier-Ends m cpu (m.clock w.trace) 1 _ (omega arith)
        (serve_overrides-Ends m cpu (m.clock w.trace) prev_tier h)).at_most
      _
