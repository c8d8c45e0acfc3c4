-- ===== src/Dispatch/Served.antt =====
-- source/dispatches.h: the starved tier that a dispatch serves out of turn.
use lunar_sched.Base.{
  ℕ, ◌≤◌, ◌<◌, ◌≡◌, refl, sym, ap, subst, ◌∙◌, inl, inr, true, false, some, ◌∷◌, arith, ◌==◌,
  ==-self, sub64,
}
use lunar_sched.Cpus.{modify_cpu}
use lunar_sched.Datatypes.{DispatchCtx}
use lunar_sched.Defines.{dsq_type_empty, starve_override_budget_ns, starve_override_cooldown_ns}
use lunar_sched.Dispatch.Accounting.{moves_of, modify_cpu-trace}
use lunar_sched.Dispatch.Order.{
  begin_override, serve_starved, continue_override, serve_overrides, dispatch_dsq_per_cpu,
}
use lunar_sched.Dispatch.Begun.{begun, NoLc, begun-cpus, begun-moves, serve_tier-NoLc}
use lunar_sched.Dispatch.Starve.{BelowLc, Late, Clocked, Latest, most_starved_tier_lem}
use lunar_sched.Dispatch.{take_from_local_tier, take_queued, move_then, stamp, most_starved_tier}
use lunar_sched.Dsq.{get_cpu_dsq_from_type, dsq_queued, stamp_tier_head_ts}
use lunar_sched.Kernel.{Machine, World, move_to_local, emit}

modify_cpu-some :
    (cpu : ℕ) (f : DispatchCtx → DispatchCtx) (d : DispatchCtx) (w : World)
    → w.cpus cpu ≡ some d
    → (modify_cpu cpu f w).cpus cpu ≡ some (f d)
unfolding modify_cpu
modify_cpu-some cpu f d w e = rw (e, modify_cpu) (rw (==-self cpu) refl)

module _ (m : Machine) (cpu : ℕ) (w : World) where
  -- A queue of this cpu that holds a task gives it.
  abbrev pub GivesOwn : ℕ → Type 0
  GivesOwn tier =
      0 < dsq_queued m (begun m cpu w) (get_cpu_dsq_from_type tier cpu)
      → m.moves (begun m cpu w).trace (get_cpu_dsq_from_type tier cpu) ≡ true

  -- The override that a dispatch begins.
  pub record Begins (tier : ℕ) (w' : World) : Type 0 where
    pub dctx : DispatchCtx
    pub known : w'.cpus cpu ≡ some dctx
    pub override : dctx.override_tier ≡ tier
    pub left : dctx.override_left ≡ starve_override_budget_ns
    pub since : dctx.last_override_ts ≡ m.clock w.trace
    pub served : dctx.tier_head_ts tier ≡ m.clock w.trace

  -- A task that waits gives a move to this cpu, with a stamp.
  pub take_from_local_tier-moved :
      (tier : ℕ)
      → 0 < dsq_queued m (begun m cpu w) (get_cpu_dsq_from_type tier cpu)
      → GivesOwn tier
      → take_from_local_tier m tier cpu (m.clock w.trace) (begun m cpu w) ≡ (
        true,
        modify_cpu cpu
            (stamp_tier_head_ts tier (m.clock w.trace))
            (emit (move_to_local (get_cpu_dsq_from_type tier cpu) true) (begun m cpu w)),
      )
  unfolding take_from_local_tier take_queued move_then stamp
  take_from_local_tier-moved tier waits gives = rw (gives waits) (ground (arith, waits))

  -- What a dispatch that finds a tier starved does.
  module _ (d : DispatchCtx) where
    abbrev pub starved : ℕ
    starved = most_starved_tier m (begun m cpu w) d cpu (m.clock w.trace)

    abbrev served : World
    served =
        modify_cpu cpu (stamp_tier_head_ts starved (m.clock w.trace))
          (emit (move_to_local (get_cpu_dsq_from_type starved cpu) true) (begun m cpu w))

    serve_starved-served :
        (prev_tier : ℕ)
        → (starved == dsq_type_empty) ≡ false
        → 0 < dsq_queued m (begun m cpu w) (get_cpu_dsq_from_type starved cpu)
        → GivesOwn starved
        → serve_starved m cpu (m.clock w.trace) prev_tier d (begun m cpu w)
          ≡ (starved, modify_cpu cpu (begin_override m cpu (m.clock w.trace) starved) served)
    unfolding serve_starved
    serve_starved-served prev_tier some_tier waits gives =
        rw (some_tier, take_from_local_tier-moved starved waits gives) refl

    stamped_head :
        (tier : ℕ)
        → BelowLc tier
        → (stamp_tier_head_ts tier (m.clock w.trace) d).tier_head_ts tier ≡ m.clock w.trace
    unfolding stamp_tier_head_ts
    stamped_head tier h = ground arith

    serve_overrides-known :
        (prev_tier : ℕ)
        → (begun m cpu w).cpus cpu ≡ some d
        → serve_overrides m cpu (m.clock w.trace) prev_tier (begun m cpu w)
          ≡ continue_override m cpu (m.clock w.trace) prev_tier d (begun m cpu w)
    unfolding serve_overrides
    serve_overrides-known prev_tier known = rw (known, serve_overrides) refl

    begin_override-Begins :
        (begun m cpu w).cpus cpu ≡ some d
        → BelowLc starved
        → Begins starved (modify_cpu cpu (begin_override m cpu (m.clock w.trace) starved) served)
    unfolding begin_override
    begin_override-Begins known h = record {
      dctx =
          begin_override m cpu (m.clock w.trace) starved
            (stamp_tier_head_ts starved (m.clock w.trace) d);
      known = modify_cpu-some cpu _ _ served (modify_cpu-some cpu _ d _ known);
      override = refl;
      left = refl;
      since = refl;
      served = stamped_head starved h;
    }

    -- Of the tiers that are late the latest is served.
    abbrev pub ServedLatest : ℕ × World → Type 0
    ServedLatest r =
        Latest m (begun m cpu w) d cpu (m.clock w.trace) r.0
        × (moves_of r.1.trace ≡ get_cpu_dsq_from_type r.0 cpu ∷ moves_of w.trace)
        × Begins r.0 r.1

    served-moves :
        (f : DispatchCtx → DispatchCtx)
        → NoLc m cpu w
        → moves_of (modify_cpu cpu f served).trace
          ≡ get_cpu_dsq_from_type starved cpu ∷ moves_of w.trace
    served-moves f h =
        rw
          (
            modify_cpu-trace cpu f served,
            modify_cpu-trace cpu (stamp_tier_head_ts starved (m.clock w.trace))
                (emit (move_to_local (get_cpu_dsq_from_type starved cpu) true) (begun m cpu w)),
            begun-moves m cpu w h,
          )
          refl

    -- When a tier is late, the latest is chosen.
    starved-Latest :
        (tier : ℕ)
        → Clocked m (begun m cpu w) d cpu (m.clock w.trace)
        → BelowLc tier
        → starve_override_cooldown_ns ≤ sub64 (m.clock w.trace) d.last_override_ts
        → Late m (begun m cpu w) d cpu (m.clock w.trace) tier
        → Latest m (begun m cpu w) d cpu (m.clock w.trace) starved
    starved-Latest tier clocked h cool late =
        elim (most_starved_tier_lem m (begun m cpu w) d cpu (m.clock w.trace) clocked) [
          | inl (e, inl cooling) ↦ absurd (omega (arith, cool, cooling))
          | inl (e, inr none_late) ↦ absurd (none_late tier h late)
          | inr (e, worst) ↦ worst
        ]

    pub dispatch-continue_override :
        (prev_tier : ℕ)
        → NoLc m cpu w
        → w.cpus cpu ≡ some d
        → dispatch_dsq_per_cpu m cpu prev_tier w
          ≡ continue_override m cpu (m.clock w.trace) prev_tier d (begun m cpu w)
    unfolding dispatch_dsq_per_cpu
    dispatch-continue_override prev_tier none_first known =
        serve_tier-NoLc m cpu w _ none_first
        ∙ serve_overrides-known prev_tier (ap (λ f. f cpu) (begun-cpus m cpu w none_first) ∙ known)

    continue_override-idle :
        (prev_tier : ℕ)
        → d.override_left ≡ 0
        → continue_override m cpu (m.clock w.trace) prev_tier d (begun m cpu w)
          ≡ serve_starved m cpu (m.clock w.trace) prev_tier d (begun m cpu w)
    unfolding continue_override
    continue_override-idle prev_tier idle =
        let none_left : (d.override_left == 0) ≡ true = ground (arith, idle) in rw none_left refl

    pub dispatch_dsq_per_cpu_starved :
        (prev_tier tier : ℕ)
        → NoLc m cpu w
        → w.cpus cpu ≡ some d
        → d.override_left ≡ 0
        → starve_override_cooldown_ns ≤ sub64 (m.clock w.trace) d.last_override_ts
        → BelowLc tier
        → Clocked m (begun m cpu w) d cpu (m.clock w.trace)
        → Late m (begun m cpu w) d cpu (m.clock w.trace) tier
        → ((own : ℕ) → GivesOwn own)
        → ServedLatest (dispatch_dsq_per_cpu m cpu prev_tier w)
    dispatch_dsq_per_cpu_starved prev_tier tier none_first known idle cool h clocked late gives =
        let latest = starved-Latest tier clocked h cool late in
        let waits = latest.late.queued in
        subst ServedLatest
          (sym (
            dispatch-continue_override prev_tier none_first known
            ∙ continue_override-idle prev_tier idle
            ∙ serve_starved-served prev_tier (ground (arith, latest.below_lc)) waits
                (gives starved)))
          (
            latest,
            served-moves _ none_first,
            begin_override-Begins (ap (λ f. f cpu) (begun-cpus m cpu w none_first) ∙ known)
                latest.below_lc,
          )
