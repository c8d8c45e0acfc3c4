-- ===== src/Crit/Log2.antt =====
-- `ilog2` is the floor of the base-2 logarithm.
use native.Mathlib.Numerals.{towards_suc}
use native.Mathlib.Nat.{div-one, add_assoc}
use lunar_sched.Base.{
  ℕ, zero, suc, ◌+◌, ◌*◌, ◌/◌, ◌^◌, ◌≤◌, ◌<◌, ◌≡◌, refl, arith, true, ltb, leb, ◌==◌, ◌&&◌, u32,
  shr, table_passes, table_passes-row, ltb→lt, ltb→ge, lt→ltb, le→ltb, Bool-cases, inl, inr,
}
use lunar_sched.Crit.{log2_bits4, log2_bits8, log2_u32, log2_u64, ilog2}

abbrev pub IsLog2 : ℕ → ℕ → Type 0
IsLog2 v x = (2 ^ x ≤ v) × (v < 2 ^ (x + 1))

IsLog2-scaled : (v x : ℕ) → IsLog2 (v / 256) x → IsLog2 v (x + 8)
IsLog2-scaled v x h =
    let top : 2 ^ (x + 8) ≡ 256 * 2 ^ x = simp towards_suc (omega arith) in
    let over : 2 ^ (x + 1) ≡ 2 * 2 ^ x = simp towards_suc (omega arith) in
    let over8 : 2 ^ (x + 8 + 1) ≡ 512 * 2 ^ x = simp towards_suc (omega arith) in
    rw (top, over8) (omega (arith, over))

-- Eight bits, by evaluation; `r` is one of the four multiples of 8 below 32.
table8 :
    table_passes
      (λ v.
        (log2_bits4 v 8 == log2_bits4 v 0 + 8)
        && (log2_bits4 v 16 == log2_bits4 v 0 + 16)
        && (log2_bits4 v 24 == log2_bits4 v 0 + 24))
      256
    ≡ true
unfolding log2_bits4 table_passes
table8 = refl

table8_log :
    table_passes
      (λ v. leb (2 ^ log2_bits4 (suc v) 0) (suc v) && ltb (suc v) (2 ^ (log2_bits4 (suc v) 0 + 1)))
      255
    ≡ true
unfolding log2_bits4 table_passes
table8_log = refl

bits4_offset :
    (v : ℕ)
    → v < 256
    → (log2_bits4 v 8 ≡ log2_bits4 v 0 + 8)
      × (log2_bits4 v 16 ≡ log2_bits4 v 0 + 16)
      × (log2_bits4 v 24 ≡ log2_bits4 v 0 + 24)
bits4_offset v h = let row = table_passes-row _ 256 v h table8 in ground (arith, row)

bits4-IsLog2 : (v : ℕ) → 0 < v → v < 256 → IsLog2 v (log2_bits4 v 0)
bits4-IsLog2 zero p h = elim p [ ]
bits4-IsLog2 (suc v) p h =
    let row = table_passes-row _ 255 v (omega arith) table8_log in ground (arith, row)

bits8_high :
    (v : ℕ)
    → 255 < v
    → (log2_bits8 v 0 ≡ log2_bits4 (v / 256) 8) × (log2_bits8 v 16 ≡ log2_bits4 (v / 256) 24)
unfolding log2_bits8
bits8_high v h = rw (lt→ltb 255 v h) (refl, refl)

bits8_low :
    (v : ℕ) → v ≤ 255 → (log2_bits8 v 0 ≡ log2_bits4 v 0) × (log2_bits8 v 16 ≡ log2_bits4 v 16)
unfolding log2_bits8
bits8_low v h = rw (le→ltb v 255 h, div-one v) (refl, refl)

bits8_lem :
    (v : ℕ)
    → v < 65536
    → (log2_bits8 v 16 ≡ log2_bits8 v 0 + 16) × (0 < v → IsLog2 v (log2_bits8 v 0))
bits8_lem v h = elim (Bool-cases (ltb 255 v)) [
  | inl e ↦
      let high = bits8_high v (ltb→lt _ _ e) in
      let offset = bits4_offset (v / 256) (omega arith) in
      (
        omega (arith, high, offset),
        λ p.
            rw (high.0, offset.0)
              (IsLog2-scaled v _
                (bits4-IsLog2 (v / 256) (omega (arith, ltb→lt _ _ e)) (omega arith))),
      )
  | inr e ↦
      let low = bits8_low v (ltb→ge _ _ e) in
      let offset = bits4_offset v (omega (arith, ltb→ge _ _ e)) in
      (omega (arith, low, offset), λ p. rw low.0 (bits4-IsLog2 v p (omega (arith, ltb→ge _ _ e))))
]

u32_high : (v : ℕ) → 65535 < v → log2_u32 v ≡ log2_bits8 (v / 65536) 16
unfolding log2_u32
u32_high v h = rw (lt→ltb 65535 v h)

u32_low : (v : ℕ) → v ≤ 65535 → log2_u32 v ≡ log2_bits8 v 0
unfolding log2_u32
u32_low v h = rw (le→ltb v 65535 h, div-one v)

IsLog2-scaled2 : (v x : ℕ) → IsLog2 (v / 65536) x → IsLog2 v (x + 16)
IsLog2-scaled2 v x h =
    let step : v / 256 / 256 ≡ v / 65536 = omega arith in
    let half : IsLog2 (v / 256) (x + 8) = IsLog2-scaled (v / 256) x (rw step h) in
    rw (← add_assoc x 8 8) (IsLog2-scaled v (x + 8) half)

log2_u32-IsLog2 : (v : ℕ) → 0 < v → v < 2 ^ 32 → IsLog2 v (log2_u32 v)
log2_u32-IsLog2 v p h = elim (Bool-cases (ltb 65535 v)) [
  | inl e ↦
      let big : 65535 < v = ltb→lt _ _ e in
      let part = bits8_lem (v / 65536) (omega arith) in
      rw (u32_high v big, part.0) (IsLog2-scaled2 v _ (part.1 (omega arith)))
  | inr e ↦ rw (u32_low v (ltb→ge _ _ e)) ((bits8_lem v (omega (arith, ltb→ge _ _ e))).1 p)
]

IsLog2-scaled4 : (v x : ℕ) → IsLog2 (v / 2 ^ 32) x → IsLog2 v (x + 32)
IsLog2-scaled4 v x h =
    let step : v / 65536 / 65536 ≡ v / 2 ^ 32 = omega arith in
    let half : IsLog2 (v / 65536) (x + 16) = IsLog2-scaled2 (v / 65536) x (rw step h) in
    rw (← add_assoc x 16 16) (IsLog2-scaled2 v (x + 16) half)

ilog2_high : (v : ℕ) → 2 ^ 32 ≤ v → v < 2 ^ 64 → ilog2 v ≡ log2_u32 (v / 2 ^ 32) + 32
unfolding ilog2 log2_u64
ilog2_high v h k = let part : u32 (shr v 32) ≡ v / 2 ^ 32 = omega arith in rw part (ground arith)

ilog2_low : (v : ℕ) → 0 < v → v < 2 ^ 32 → ilog2 v ≡ log2_u32 v
unfolding ilog2 log2_u64
ilog2_low v h k =
    let part : u32 (shr v 32) ≡ 0 = omega arith in
    let rest : u32 v ≡ v = omega arith in rw (part, rest) (ground arith)

-- For every u64 but 0, `ilog2` is the floor of the base-2 logarithm.
pub ilog2-IsLog2 : (v : ℕ) → 0 < v → v < 2 ^ 64 → IsLog2 v (ilog2 v)
ilog2-IsLog2 v p h = elim (Bool-cases (ltb v (2 ^ 32))) [
  | inl e ↦ rw (ilog2_low v p (ltb→lt _ _ e)) (log2_u32-IsLog2 v p (ltb→lt _ _ e))
  | inr e ↦
      let big : 2 ^ 32 ≤ v = ltb→ge v (2 ^ 32) e in
      rw (ilog2_high v big h)
        (IsLog2-scaled4 v _ (log2_u32-IsLog2 (v / 2 ^ 32) (omega arith) (omega arith)))
]
