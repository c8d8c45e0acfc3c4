-- ===== src/Crit/Score.antt =====
-- The crit score: its range, and what its inputs do to it.
use native.Mathlib.Nat.{div-lt_iff_lt-mul, le-div_iff_mul-le, pow-le-pow_right}
use lunar_sched.Base.{
  ℕ, ◌+◌, ◌*◌, ◌/◌, ◌^◌, ◌≤◌, ◌<◌, ◌≡◌, refl, arith, ltb, ltb→lt, ltb→ge, Bool-cases, inl, inr,
}
use lunar_sched.Datatypes.{TaskCtx}
use lunar_sched.Defines.{crit_interval_min, crit_interval_ref}
use lunar_sched.Crit.{
  log2_u64, log2_u32, log2_bits8, log2_bits4, ilog2, exponentially_weighted_moving_avg,
  clamp_interval, effective_interval, calc_crit,
}
use lunar_sched.Crit.Log2.{ilog2-IsLog2}

abbrev pub InRange : ℕ → Type 0
InRange i = (crit_interval_min ≤ i) × (i ≤ crit_interval_ref)

pub clamp_interval-InRange : (i : ℕ) → InRange (clamp_interval i)
unfolding clamp_interval
clamp_interval-InRange i = ground arith

pub effective_interval-InRange : (avg last now : ℕ) → InRange (effective_interval avg last now)
unfolding effective_interval
effective_interval-InRange avg last now = ground arith

-- An average of intervals in the range stays in it.
pub ewma-InRange :
    (old sample : ℕ)
    → InRange old
    → InRange sample
    → InRange (exponentially_weighted_moving_avg old sample)
unfolding exponentially_weighted_moving_avg
ewma-InRange old sample h k = omega arith

-- The frequency that `calc_crit` takes the logarithm of.
abbrev pub rate : ℕ → ℕ
rate i = crit_interval_ref / i

rate_bounds : (i : ℕ) → InRange i → (0 < rate i) × (rate i ≤ 100000)
rate_bounds i h = (
  (le-div_iff_mul-le (omega arith)).1 (omega arith),
  let below : rate i < 100001 = (div-lt_iff_lt-mul (omega arith)).1 (omega arith) in omega arith,
)

ilog2_small : (v : ℕ) → 0 < v → v ≤ 100000 → ilog2 v ≤ 16
ilog2_small v p h = elim (Bool-cases (ltb 16 (ilog2 v))) [
  | inl e ↦
      let big : 2 ^ 17 ≤ 2 ^ ilog2 v =
        pow-le-pow_right {n = 2} (omega arith) {i = 17} {j = ilog2 v} (ltb→lt _ _ e) in
      absurd (omega (arith, ilog2-IsLog2 v p (omega arith)))
  | inr e ↦ ltb→ge _ _ e
]

-- The score of any task is the sum of the logarithms of two rates, and at most 32, so the cut at CRIT_MAX
-- has no effect.
pub calc_crit_sum :
    (t : TaskCtx) (now : ℕ)
    → (calc_crit t now
        ≡ ilog2 (rate (effective_interval t.wait_interval t.last_woken_at now))
          + ilog2 (rate (effective_interval t.wake_interval t.last_wake_at now)))
      × (calc_crit t now ≤ 32)
unfolding calc_crit
calc_crit_sum t now =
    let a = rate_bounds _ (effective_interval-InRange t.wait_interval t.last_woken_at now) in
    let b = rate_bounds _ (effective_interval-InRange t.wake_interval t.last_wake_at now) in
    let x = ilog2_small _ a.0 a.1 in let y = ilog2_small _ b.0 b.1 in ground (arith, x, y)

ilog2_one : ilog2 1 ≡ 0
unfolding ilog2 log2_u64 log2_u32 log2_bits8 log2_bits4
ilog2_one = refl

effective_interval_old :
    (avg last now : ℕ)
    → avg ≤ crit_interval_ref
    → last + 8 * crit_interval_ref < now
    → effective_interval avg last now ≡ crit_interval_ref
unfolding effective_interval
effective_interval_old avg last now h k = ground arith

-- A task that for more than eight seconds was not woken and woke nobody has the score 0, for intervals in
-- their range.
pub calc_crit_decay :
    (t : TaskCtx) (now : ℕ)
    → InRange t.wait_interval
    → InRange t.wake_interval
    → t.last_woken_at + 8 * crit_interval_ref < now
    → t.last_wake_at + 8 * crit_interval_ref < now
    → calc_crit t now ≡ 0
calc_crit_decay t now h k p q = rw (
  (calc_crit_sum t now).0,
  effective_interval_old t.wait_interval t.last_woken_at now h.1 p,
  effective_interval_old t.wake_interval t.last_wake_at now k.1 q,
  ilog2_one,
)
