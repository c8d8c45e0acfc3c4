-- ===== src/Dispatch/Conserve/Tiers.antt =====
-- The tiers of other cpus, and the own ones with no previous task.
use lunar_sched.Base.{ℕ, ◌≡◌, refl, ◌⊎◌, inl, inr, Bool, true, false, arith, Bool-cases, ◌==◌, ltb}
use lunar_sched.Cpus.{cpu_llc_id}
use lunar_sched.Defines.{dsq_type_empty}
use lunar_sched.Dispatch.Conserve.{
  Finds, Hits, Gives, Reaches, quiet, return_if-Finds, return_when-Finds, which_tier,
  take_from_other_tier-Hits,
}
use lunar_sched.Dispatch.Logic.Parts.{
  try_acquire_from_rt_cpu-Tests, take_from_local_tier-Tests, take_from_other_tier-Tests,
}
use lunar_sched.Dispatch.Order.{steal_tiers, steal, serve_tier, serve_own, nothing_found}
use lunar_sched.Dispatch.{
  Action, return_if, return_when, other_cpu, take_from_local_tier, take_from_other_tier,
}
use lunar_sched.Dsq.{get_cpu_dsq_from_type}
use lunar_sched.Kernel.{Machine, Trace}
use lunar_sched.Tier.Target.{IsTier}

module _ (t : Trace) (m : Machine) (cpu now : ℕ) where
  -- One tier of other cpus.
  take_other :
      (this_llc : Bool) (tier : ℕ) (rest : Action)
      → IsTier tier
      → (let f = take_from_other_tier m tier cpu now this_llc in
          Hits t f ⊎ Finds t rest → Finds t (return_if f tier rest))
  take_other this_llc tier rest h =
      return_if-Finds t _ tier rest h
        (take_from_other_tier-Tests (quiet t m cpu).searches tier now this_llc h)

  steal_tiers-Finds :
      (this_llc : Bool) (rest : Action)
      → (let H : ℕ → Type 0 = λ tier. Hits t (take_from_other_tier m tier cpu now this_llc) in
          H 1 ⊎ (H 2 ⊎ (H 3 ⊎ (H 4 ⊎ Finds t rest))))
      → Finds t (steal_tiers m cpu now this_llc rest)
  unfolding steal_tiers
  steal_tiers-Finds this_llc rest (inl h) = take_other this_llc 1 _ (omega arith) (inl h)
  steal_tiers-Finds this_llc rest (inr (inl h)) =
      take_other this_llc 1 _ (omega arith) (inr (take_other this_llc 2 _ (omega arith) (inl h)))
  steal_tiers-Finds this_llc rest (inr (inr (inl h))) = take_other this_llc 1 _ (omega arith) (
      inr (
        take_other this_llc 2 _ (omega arith)
          (inr (take_other this_llc 3 _ (omega arith) (inl h)))))
  steal_tiers-Finds this_llc rest (inr (inr (inr h))) = take_other this_llc 1 _ (omega arith) (
      inr (
        take_other this_llc 2 _ (omega arith) (
          inr (
            take_other this_llc 3 _ (omega arith)
              (inr (take_other this_llc 4 _ (omega arith) h))))))

  pub serve_tier-Finds :
      (tier : ℕ) (rest : Action)
      → IsTier tier
      → Hits t (take_from_local_tier m tier cpu now) ⊎ Finds t rest
      → Finds t (serve_tier m cpu now tier rest)
  unfolding serve_tier
  serve_tier-Finds tier rest h k =
      return_if-Finds t _ tier _ h
        (try_acquire_from_rt_cpu-Tests (quiet t m cpu).searches tier now h)
        (inr (
          return_if-Finds t _ tier rest h
            (take_from_local_tier-Tests (quiet t m cpu).searches tier now h) k))

  -- With no previous task, the tiers of the own queues are all tried, and then those of other cpus.
  pub serve_own-Finds :
      (let H : ℕ → Type 0 = λ tier. Hits t (take_from_local_tier m tier cpu now) in
        H 2 ⊎ (H 3 ⊎ (H 4 ⊎ Finds t (steal m cpu now))))
      → Finds t (serve_own m cpu now dsq_type_empty)
  unfolding serve_own
  serve_own-Finds h = return_when-Finds t _ _ _ refl (serve_tier-Finds 2 _ (omega arith) (second h))
    where
      fourth :
          Hits t (take_from_local_tier m 4 cpu now) ⊎ Finds t (steal m cpu now)
          → Finds t (serve_tier m cpu now 4 (return_when false 5 (steal m cpu now)))
      fourth (inl h) = serve_tier-Finds 4 _ (omega arith) (inl h)
      fourth (inr h) = serve_tier-Finds 4 _ (omega arith) (inr (return_when-Finds t _ _ _ refl h))

      third :
          (let H : ℕ → Type 0 = λ tier. Hits t (take_from_local_tier m tier cpu now) in
            H 3 ⊎ (H 4 ⊎ Finds t (steal m cpu now)))
          → Finds t (
              serve_tier m cpu now 3 (
                return_when false 5
                  (serve_tier m cpu now 4 (return_when false 5 (steal m cpu now)))))
      third (inl h) = serve_tier-Finds 3 _ (omega arith) (inl h)
      third (inr h) =
          serve_tier-Finds 3 _ (omega arith) (inr (return_when-Finds t _ _ _ refl (fourth h)))

      second :
          (let H : ℕ → Type 0 = λ tier. Hits t (take_from_local_tier m tier cpu now) in
            H 2 ⊎ (H 3 ⊎ (H 4 ⊎ Finds t (steal m cpu now))))
          → Hits t (take_from_local_tier m 2 cpu now)
            ⊎ Finds t (
                return_when false 5 (
                  serve_tier m cpu now 3 (
                    return_when false 5
                      (serve_tier m cpu now 4 (return_when false 5 (steal m cpu now))))))
      second (inl h) = inl h
      second (inr h) = inr (return_when-Finds t _ _ _ refl (third h))

  pub steal-Finds :
      (tier c : ℕ)
      → IsTier tier
      → Reaches m cpu c
      → Gives m (get_cpu_dsq_from_type tier c) t
      → Finds t (steal m cpu now)
  unfolding steal other_cpu
  steal-Finds tier c h r g = elim (Bool-cases (cpu_llc_id m c == cpu_llc_id m cpu)) [
    | inl same ↦ steal_tiers-Finds true _ (
        which_tier (λ a. Hits t (take_from_other_tier m a cpu now true)) _ tier h
          (take_from_other_tier-Hits t m cpu now tier c true h r.below r.few
            (ground (arith, same, r.other, r.online)) g))
    | inr differs ↦
        let several : ltb 1 m.nr_llcs ≡ true = ground (arith, differs, r.llc) in
        let all : Finds t (steal_tiers m cpu now false (nothing_found m cpu now)) =
          steal_tiers-Finds false _ (
            which_tier (λ a. Hits t (take_from_other_tier m a cpu now false)) _ tier h
              (take_from_other_tier-Hits t m cpu now tier c false h r.below r.few
                (ground (arith, differs, r.other, r.online)) g)) in
        steal_tiers-Finds true _
          (inr (inr (inr (inr (record { found = λ w q. rw several (all.found w q) })))))
  ]
