-- ===== src/Invariant/Calls/Created.antt =====
-- The queues that `lunar_init` creates.
use lunar_sched.Base.{
  ℕ, zero, suc, ◌+◌, ◌≤◌, ◌<◌, ◌≡◌, refl, sym, ap, subst, ◌⊎◌, inl, inr, true, false, List, [], ◌∷◌,
  arith, Bool-cases, Option-cases, if_cases, ◌==◌, ==→eq,
}
use lunar_sched.Base.Int.{ℤ, pos, negsuc, is_zero}
use lunar_sched.Callbacks.Init.{create_queues, queues_of, init_queues, init_cpus, lunar_init}
use lunar_sched.Cpus.{get_dispatch_ctx}
use lunar_sched.Dsq.{get_cpu_dsq_from_type}
use lunar_sched.Invariant.Calls.{IsQueue}
use lunar_sched.Kernel.{Machine, World, Trace, create_dsq}
use lunar_sched.Tier.Target.{IsTier}

-- A queue was created with success.
abbrev pub Made : ℕ → Trace → Type 0
Made dsq [] = ⊥
Made dsq (create_dsq made answer ∷ t) = ((made ≡ dsq) × (answer ≡ pos 0)) ⊎ Made dsq t
Made dsq (_ ∷ t) = Made dsq t

-- All queues of a list were.
abbrev AllMade : List ℕ → Trace → Type 0
AllMade [] t = Unit {0}
AllMade (dsq ∷ dsqs) t = Made dsq t × AllMade dsqs t

is_zero_eq : (z : ℤ) → is_zero z ≡ true → z ≡ pos 0
is_zero_eq (pos n) h = ap pos (ground (arith, h))
is_zero_eq (negsuc n) h = absurd (ground (arith, h))

not_zero : (z : ℤ) → is_zero z ≡ false → z ≡ pos 0 → ⊥
not_zero z h e = ground (arith, h, ap is_zero e)

module _ (m : Machine) where
  create_queues-older :
      (dsqs : List ℕ) (w : World) (dsq : ℕ)
      → Made dsq w.trace
      → Made dsq (create_queues m dsqs w).1.trace
  unfolding create_queues
  create_queues-older [] w dsq h = h
  create_queues-older (made ∷ dsqs) w dsq h = elim (Bool-cases (is_zero (m.creates w.trace made))) [
    | inl e ↦ rw (e, create_queues) (create_queues-older dsqs _ dsq (inr h))
    | inr e ↦ rw (e, create_queues) (inr h)
  ]

  create_queues-AllMade :
      (dsqs : List ℕ) (w : World)
      → (create_queues m dsqs w).0 ≡ pos 0
      → AllMade dsqs (create_queues m dsqs w).1.trace
  unfolding create_queues
  create_queues-AllMade [] w = λ done. tt
  create_queues-AllMade (dsq ∷ dsqs) w = elim (Bool-cases (is_zero (m.creates w.trace dsq))) [
    | inl e ↦
        rw (e, create_queues)
          λ done. (
            create_queues-older dsqs _ dsq (inl (refl, is_zero_eq (m.creates w.trace dsq) e)),
            create_queues-AllMade dsqs _ done,
          )
    | inr e ↦ rw (e, create_queues) λ done. absurd (not_zero (m.creates w.trace dsq) e done)
  ]

  init_queues-older :
      (rounds cpu : ℕ) (w : World) (dsq : ℕ)
      → Made dsq w.trace
      → Made dsq (init_queues m rounds cpu w).1.trace
  unfolding init_queues
  init_queues-older zero cpu w dsq h = h
  init_queues-older (suc rounds) cpu w dsq h =
      let made = create_queues-older (queues_of cpu) w dsq h in
      elim (Bool-cases (is_zero (create_queues m (queues_of cpu) w).0)) [
        | inl e ↦ rw (e, init_queues) (init_queues-older rounds (cpu + 1) _ dsq made)
        | inr e ↦ rw (e, init_queues) made
      ]

  -- Of the queues of one cpu, that of a tier.
  queues_of-Made :
      (tier cpu : ℕ) (t : Trace)
      → IsTier tier
      → AllMade (queues_of cpu) t
      → Made (get_cpu_dsq_from_type tier cpu) t
  unfolding get_cpu_dsq_from_type
  queues_of-Made tier cpu t h (lc, (normal, (interactive, (greedy, rest)))) =
      if_cases (λ dsq. Made dsq t) (tier == 1) _ _ (λ _. lc)
        λ _.
          if_cases (λ dsq. Made dsq t) (tier == 2) _ _ (λ _. interactive)
            λ _. if_cases (λ dsq. Made dsq t) (tier == 3) _ _ (λ _. normal) (λ _. greedy)

  init_queues-Made :
      (rounds cpu tier c : ℕ) (w : World)
      → IsTier tier
      → cpu ≤ c
      → c < cpu + rounds
      → (init_queues m rounds cpu w).0 ≡ pos 0
      → Made (get_cpu_dsq_from_type tier c) (init_queues m rounds cpu w).1.trace
  unfolding init_queues
  init_queues-Made zero cpu tier c w t low high = λ done. absurd (omega arith)
  init_queues-Made (suc rounds) cpu tier c w t low high =
      elim (Bool-cases (is_zero (create_queues m (queues_of cpu) w).0)) [
        | inl e ↦
            rw (e, init_queues)
              λ done. elim (Bool-cases (cpu == c)) [
                | inl same ↦
                    let made : World = (create_queues m (queues_of cpu) w).1 in
                    let here : Made (get_cpu_dsq_from_type tier cpu) made.trace =
                      queues_of-Made tier cpu made.trace t
                        (create_queues-AllMade (queues_of cpu) w (is_zero_eq _ e)) in
                    init_queues-older rounds (cpu + 1) made (get_cpu_dsq_from_type tier c) (
                      subst (λ a. Made (get_cpu_dsq_from_type tier a) made.trace) (==→eq cpu c same)
                        here)
                | inr other ↦
                    init_queues-Made rounds (cpu + 1) tier c _ t (ground arith) (omega arith) done
              ]
        | inr e ↦
            rw (e, init_queues)
              λ done. absurd (not_zero (create_queues m (queues_of cpu) w).0 e done)
      ]

  init_cpus-older :
      (rounds cpu : ℕ) (w : World) (dsq : ℕ)
      → Made dsq w.trace
      → Made dsq (init_cpus m rounds cpu w).1.trace
  unfolding init_cpus
  init_cpus-older zero cpu w dsq h = h
  init_cpus-older (suc rounds) cpu w dsq h = elim (Option-cases (get_dispatch_ctx w cpu)) [
    | inl e ↦ rw (e, init_cpus) h
    | inr (d, e) ↦ rw (e, init_cpus) (init_cpus-older rounds (cpu + 1) _ dsq h)
  ]

  -- When `lunar_init` succeeds, it has created the queue of every tier and every cpu of the machine.
  pub lunar_init-Made :
      (w : World) (dsq : ℕ)
      → (lunar_init m w).0 ≡ pos 0
      → IsQueue m dsq
      → Made dsq (lunar_init m w).1.trace
  unfolding lunar_init
  lunar_init-Made w dsq done (tier, c, t, below, at) =
      subst (λ a. Made a (lunar_init m w).1.trace) (sym at)
        (elim (Bool-cases (is_zero (init_queues m m.nr_cpu_ids 0 w).0)) [
          | inl e ↦ rw e (
              init_cpus-older m.nr_cpu_ids 0 (init_queues m m.nr_cpu_ids 0 w).1
                (get_cpu_dsq_from_type tier c)
                (init_queues-Made m.nr_cpu_ids 0 tier c w t (omega arith) (omega arith)
                  (is_zero_eq _ e)))
          | inr e ↦ absurd (not_zero (init_queues m m.nr_cpu_ids 0 w).0 e (ground (arith, done, e)))
        ])
