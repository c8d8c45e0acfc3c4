-- ===== src/Tier/Target.antt =====
-- The target tier against the table of the README: a tier admits a task by its crit score and duty.
use lunar_sched.Base.{ℕ, ◌≤◌, ◌≡◌, ◌⊎◌, arith}
use lunar_sched.Base.Int.{ℤ, pos, ◌≤ℤ◌, ◌<ℤ◌}
use lunar_sched.Defines.{
  crit_edge_lc, crit_edge_interactive, crit_edge_normal, duty_cap_lc, duty_cap_interactive,
  duty_cap_normal,
}
use lunar_sched.Tier.{target_tier}

abbrev pub IsTier : ℕ → Type 0
IsTier n = (1 ≤ n) × (n ≤ 4)

-- The row of tier `n` admits the score and the duty.
abbrev pub Admits : ℕ → ℕ → ℤ → Type 0
Admits n crit duty =
    ((n ≡ 1) × (crit_edge_lc ≤ crit) × (duty <ℤ pos duty_cap_lc))
    ⊎ (((n ≡ 2) × (crit_edge_interactive ≤ crit) × (duty <ℤ pos duty_cap_interactive))
        ⊎ (((n ≡ 3) × (crit_edge_normal ≤ crit) × (duty <ℤ pos duty_cap_normal)) ⊎ (n ≡ 4)))

pub target_tier-IsTier : (crit duty : ℤ) → IsTier (target_tier crit duty)
unfolding target_tier
target_tier-IsTier crit duty = ground arith

-- The row of the target admits the task, and no better tier's row does: a tier `n` whose row admits it is
-- the target or a worse one.
pub target_tier_best :
    (crit : ℕ) (duty : ℤ) (n : ℕ)
    → Admits n crit duty
    → Admits (target_tier (pos crit) duty) crit duty × (target_tier (pos crit) duty ≤ n)
unfolding target_tier
target_tier_best crit duty n h = (ground arith, ground arith)

-- A higher duty never gives a better tier, and a higher score never a worse one.
pub target_tier_mono :
    (crit crit' duty duty' : ℤ)
    → crit' ≤ℤ crit
    → duty ≤ℤ duty'
    → target_tier crit duty ≤ target_tier crit' duty'
unfolding target_tier
target_tier_mono crit crit' duty duty' h k = ground arith
