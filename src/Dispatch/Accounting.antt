-- ===== src/Dispatch/Accounting.antt =====
-- A dispatch moves one task or none and tells which, and leaves all but the tier stamps and the override
-- of the contexts alone.
use lunar_sched.Base.{
  ℕ, ◌≤◌, ◌<◌, ◌≡◌, refl, ◌∙◌, ap, ◌⊎◌, inl, inr, true, List, [], ◌∷◌, Option-cases,
}
use lunar_sched.Cpus.{modify_cpu, cpu_is_online, get_dispatch_ctx}
use lunar_sched.Datatypes.{DispatchCtx}
use lunar_sched.Dispatch.Logic.{Rules, IsSource}
use lunar_sched.Dispatch.Logic.Whole.{dispatch_dsq_per_cpu-Returns}
use lunar_sched.Dispatch.Order.{dispatch_dsq_per_cpu}
use lunar_sched.Dsq.{get_cpu_dsq_from_type, stamp_tier_head_ts}
use lunar_sched.Kernel.{Machine, World, Trace, move_to_local, emit}
use lunar_sched.Tier.Target.{IsTier}

-- The queues that tasks were moved from, newest first.
abbrev pub moves_of : Trace → List ℕ
moves_of [] = []
moves_of (move_to_local dsq true ∷ t) = dsq ∷ moves_of t
moves_of (_ ∷ t) = moves_of t

pub modify_cpu-trace :
    (cpu : ℕ) (f : DispatchCtx → DispatchCtx) (w : World) → (modify_cpu cpu f w).trace ≡ w.trace
unfolding modify_cpu
modify_cpu-trace cpu f w = elim (Option-cases (get_dispatch_ctx w cpu)) [
  | inl e ↦ rw (e, modify_cpu)
  | inr (d, e) ↦ rw (e, modify_cpu)
]

module _ (m : Machine) (cpu : ℕ) where
  abbrev pub TookOne : ℕ → World → World → Type 0
  TookOne tier w w' =
      (c : ℕ) × IsSource m cpu c
      × (moves_of w'.trace ≡ get_cpu_dsq_from_type tier c ∷ moves_of w.trace)

  abbrev pub TookNone : World → World → Type 0
  TookNone w w' = moves_of w'.trace ≡ moves_of w.trace

  accounting : Rules m cpu TookOne TookNone
  accounting = record {
    searches = record {
      still = λ w. refl;
      then_miss = λ a b c h k. k ∙ h;
      then_hit = λ tier a b c h k. (k.0, k.1, k.2 ∙ ap (◌∷◌ (get_cpu_dsq_from_type tier k.0)) h);
      clock = λ now w. refl;
      random = λ n w. refl;
      refused = λ tier c w t src e. refl;
      taken = λ tier c now w t src. (
        c,
        src,
        rw
            (modify_cpu-trace c (stamp_tier_head_ts tier now)
              (emit (move_to_local (get_cpu_dsq_from_type tier c) true) w))
            refl,
      );
    };
    label_miss = λ f w k. rw (modify_cpu-trace cpu f w) refl;
    label_hit = λ tier f a b k h. (h.0, h.1, rw (modify_cpu-trace cpu f b) h.2);
  }

  -- A tier is returned exactly when one task was moved, out of the queue of that tier of this cpu or of
  -- another online cpu of the machine; else the answer is above GREEDY and no task was moved.
  pub dispatch_dsq_per_cpu_moves :
      (prev_tier : ℕ) (w : World)
      → let (tier, w') = dispatch_dsq_per_cpu m cpu prev_tier w in
        (IsTier tier
          × ((c : ℕ) × ((c ≡ cpu) ⊎ ((c < m.nr_cpu_ids) × (cpu_is_online m c ≡ true)))
              × (moves_of w'.trace ≡ get_cpu_dsq_from_type tier c ∷ moves_of w.trace)))
        ⊎ ((5 ≤ tier) × (moves_of w'.trace ≡ moves_of w.trace))
  dispatch_dsq_per_cpu_moves prev_tier w = dispatch_dsq_per_cpu-Returns accounting prev_tier w
