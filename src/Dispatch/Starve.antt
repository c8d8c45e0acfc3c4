-- ===== src/Dispatch/Starve.antt =====
-- Which tier is starved, and for how long.
use lunar_sched.Base.{
  ℕ, ◌+◌, ◌-◌, ◌^◌, ◌≤◌, ◌<◌, ◌≡◌, refl, sym, ap, subst, ◌⊎◌, inl, inr, arith, Bool-cases, ◌==◌,
  if◌then◌else◌, sub64,
}
use lunar_sched.Base.Int.{ℤ, pos, negsuc, pos_part, neg_part, ◌≤ℤ◌, ◌<ℤ◌}
use lunar_sched.Datatypes.{DispatchCtx}
use lunar_sched.Defines.{
  dsq_type_empty, starve_budget_interactive_ns, starve_budget_normal_ns, starve_budget_greedy_ns,
  starve_override_cooldown_ns,
}
use lunar_sched.Dispatch.{tier_overrun, worse, most_starved_tier}
use lunar_sched.Dsq.{get_cpu_dsq_from_type, dsq_queued}
use lunar_sched.Kernel.{Machine, World}

-- The budget of a tier, as the README and the defines list them.
abbrev pub starve_budget : ℕ → ℕ
starve_budget tier =
    if tier == 2
    then starve_budget_interactive_ns
    else if tier == 3
    then starve_budget_normal_ns
    else starve_budget_greedy_ns

ℤ-positive : (z : ℤ) → 0 < pos_part z → pos 0 <ℤ z
ℤ-positive (pos n) h = omega (arith, h)
ℤ-positive (negsuc n) h = absurd (omega (arith, h))

pos_part-le : (y z : ℤ) → y ≤ℤ z → pos 0 <ℤ z → pos_part y ≤ pos_part z
pos_part-le (pos n) (pos k) h p = omega (arith, h)
pos_part-le (pos n) (negsuc k) h p = absurd (omega (arith, p))
pos_part-le (negsuc n) z h p = omega arith

abbrev pub BelowLc : ℕ → Type 0
BelowLc tier = (tier ≡ 2) ⊎ ((tier ≡ 3) ⊎ (tier ≡ 4))

each_tier : (P : ℕ → Type 0) → P 2 → P 3 → P 4 → (tier : ℕ) → BelowLc tier → P tier
each_tier P a b c tier (inl e) = subst P (sym e) a
each_tier P a b c tier (inr (inl e)) = subst P (sym e) b
each_tier P a b c tier (inr (inr e)) = subst P (sym e) c

module _ (m : Machine) (w : World) (d : DispatchCtx) (cpu now : ℕ) where
  abbrev pub overrun_of : ℕ → ℤ
  overrun_of tier = tier_overrun m w d tier cpu now (starve_budget tier)

  abbrev pub Cooling : Type 0
  Cooling = sub64 now d.last_override_ts < starve_override_cooldown_ns

  -- The tier with the highest overrun of the three, if that is above 0.
  pub most_starved_tier-overrun :
      let worst = most_starved_tier m w d cpu now in
      ((worst ≡ dsq_type_empty)
        × (Cooling ⊎ ((overrun_of 2 ≤ℤ pos 0) × (overrun_of 3 ≤ℤ pos 0) × (overrun_of 4 ≤ℤ pos 0))))
      ⊎ (((worst ≡ 2) ⊎ ((worst ≡ 3) ⊎ (worst ≡ 4)))
          × (starve_override_cooldown_ns ≤ sub64 now d.last_override_ts)
          × (pos 0 <ℤ overrun_of worst)
          × (overrun_of 2 ≤ℤ overrun_of worst)
          × (overrun_of 3 ≤ℤ overrun_of worst)
          × (overrun_of 4 ≤ℤ overrun_of worst))
  unfolding most_starved_tier worse
  most_starved_tier-overrun = ground arith

  -- The tier has a task on this cpu, and was last served longer ago than its budget.
  pub record Late (tier : ℕ) : Type 0 where
    pub queued : 0 < dsq_queued m w (get_cpu_dsq_from_type tier cpu)
    pub over : d.tier_head_ts tier + starve_budget tier < now

  -- How much longer.
  abbrev pub late_by : ℕ → ℕ
  late_by tier = now - d.tier_head_ts tier - starve_budget tier

  -- No tier was served in the future, and the clock has not reached its highest bit.
  pub record Clocked : Type 0 where
    pub interactive : d.tier_head_ts 2 ≤ now
    pub normal : d.tier_head_ts 3 ≤ now
    pub greedy : d.tier_head_ts 4 ≤ now
    pub fits : now < 2 ^ 63

  tier_overrun-none :
      (tier : ℕ) → dsq_queued m w (get_cpu_dsq_from_type tier cpu) ≡ 0 → overrun_of tier ≡ pos 0
  unfolding tier_overrun
  tier_overrun-none tier e = rw e refl

  tier_overrun-some :
      (tier : ℕ)
      → 0 < dsq_queued m w (get_cpu_dsq_from_type tier cpu)
      → d.tier_head_ts tier ≤ now
      → now < 2 ^ 63
      → pos_part (overrun_of tier) ≡ late_by tier
  unfolding tier_overrun
  tier_overrun-some tier h past fits = ground arith

  Clocked-past : Clocked → (tier : ℕ) → BelowLc tier → d.tier_head_ts tier ≤ now
  Clocked-past k tier h = ground (arith, h, k.interactive, k.normal, k.greedy)

  -- The overrun of a late tier is positive, and how late the tier is.
  Late-overrun :
      (tier : ℕ)
      → Clocked
      → BelowLc tier
      → Late tier
      → (pos 0 <ℤ overrun_of tier) × (pos_part (overrun_of tier) ≡ late_by tier)
  Late-overrun tier k h late =
      let value = tier_overrun-some tier late.queued (Clocked-past k tier h) k.fits in
      (ℤ-positive _ (omega (arith, value, late.over)), value)

  overrun-Late : (tier : ℕ) → Clocked → BelowLc tier → pos 0 <ℤ overrun_of tier → Late tier
  overrun-Late tier k h over =
      elim (Bool-cases (dsq_queued m w (get_cpu_dsq_from_type tier cpu) == 0)) [
        | inl e ↦ absurd (
            omega (
              arith,
              ap neg_part (tier_overrun-none tier (ground (arith, e))),
              ap pos_part (tier_overrun-none tier (ground (arith, e))),
              over,
            ))
        | inr e ↦
            let value : pos_part (overrun_of tier) ≡ late_by tier =
              tier_overrun-some tier (ground (arith, e)) (Clocked-past k tier h) k.fits in
            record { queued = ground (arith, e); over = omega (arith, value, over) }
      ]

  -- Of the tiers below LC none is late.
  abbrev pub NoneLate : Type 0
  NoneLate = (tier : ℕ) → BelowLc tier → ¬ Late tier

  -- The tier is late, by at least as much as any other that is late.
  pub record Latest (worst : ℕ) : Type 0 where
    pub below_lc : BelowLc worst
    pub late : Late worst
    pub furthest : (tier : ℕ) → BelowLc tier → Late tier → late_by tier ≤ late_by worst

  most_starved_tier-none :
      Clocked
      → (overrun_of 2 ≤ℤ pos 0) × (overrun_of 3 ≤ℤ pos 0) × (overrun_of 4 ≤ℤ pos 0)
      → NoneLate
  most_starved_tier-none k (a, b, c) tier h late =
      let (over, value) = Late-overrun tier k h late in
      absurd (omega (arith, over, each_tier (λ i. overrun_of i ≤ℤ pos 0) a b c tier h))

  most_starved_tier-furthest :
      Clocked
      → (worst tier : ℕ) → BelowLc worst
      → pos 0 <ℤ overrun_of worst
      → overrun_of tier ≤ℤ overrun_of worst
      → BelowLc tier
      → Late tier
      → late_by tier ≤ late_by worst
  most_starved_tier-furthest k worst tier h over le low late =
      let (_, far) = Late-overrun worst k h (overrun-Late worst k h over) in
      let (_, near) = Late-overrun tier k low late in
      omega (arith, far, near, pos_part-le _ _ le over)

  -- While the last override is less than 10ms ago no tier is returned. After that, provided that the clock is below
  -- 2^63 and no tier was served in the future: the tier returned is below LC, has a task on the cpu and was last served
  -- longer ago than its budget, by at least as much as any other such tier; and none is returned exactly when there is
  -- no such tier.
  pub most_starved_tier_lem :
      Clocked
      → let worst = most_starved_tier m w d cpu now in
        ((worst ≡ dsq_type_empty) × (Cooling ⊎ NoneLate))
        ⊎ ((starve_override_cooldown_ns ≤ sub64 now d.last_override_ts) × Latest worst)
  most_starved_tier_lem k = elim most_starved_tier-overrun [
    | inl (none, inl cool) ↦ inl (none, inl cool)
    | inl (none, inr few) ↦ inl (none, inr (most_starved_tier-none k few))
    | inr (h, cool, over, a, b, c) ↦
        let late = overrun-Late _ k h over in
        inr (
          cool,
          record {
            below_lc = h;
            late = late;
            furthest = λ tier low other.
                most_starved_tier-furthest k _ tier h over
                  (each_tier (λ i. overrun_of i ≤ℤ overrun_of (most_starved_tier m w d cpu now)) a b
                    c tier low)
                  low other;
          },
        )
  ]
