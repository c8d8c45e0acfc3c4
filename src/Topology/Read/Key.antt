-- ===== src/Topology/Read/Key.antt =====
-- The keys by which `read_topology` groups the cpus.
use lunar_sched.Base.{
  ℕ, zero, suc, ◌^◌, ◌≤◌, ◌<◌, ◌≡◌, ◌≢◌, ◌∙◌, sym, ap, subst, ◌↔◌, Bool, true, false, Option, some,
  [], ◌∷◌, arith, inl, inr, Bool-cases, Option-cases, ltb,
}
use mathlib.Core.Option.{some-injective}
use lunar_sched.Base.Int.{ℤ, pos, negsuc, pos_part, neg_part}
use lunar_sched.Text.{
  Bytes, bytes, stol, to_long, signed_number, skip_space, to_string, to_string_ℤ, cut_at,
}
use lunar_sched.Text.Decimal.{
  AreDigits, to_string-AreDigits, to_string_injective, to_string_ℤ-Lacks, cut_at-append,
}
use lunar_sched.Topology.Read.{join_key, value_or, package_of, cache_key, cpu_dir, full_key}
use lunar_sched.Topology.Sysfs.{Host, FsPath, ◌/p◌, read_long_file, read_first_line}

-- A `long`.
abbrev pub IsLong : ℤ → Type 0
IsLong z = (pos_part z < 2 ^ 63) × (neg_part z ≤ 2 ^ 63)

to_long-IsLong : (number : Bool × ℕ) (z : ℤ) → to_long number ≡ some z → IsLong z
to_long-IsLong (true, zero) z e = subst IsLong (some-injective _ _ e) (omega arith, omega arith)
to_long-IsLong (true, suc n) z e = elim (Bool-cases (ltb n (2 ^ 63))) [
  | inl fits ↦ subst IsLong (some-injective _ _ (rw fits at e)) (omega arith, ground (arith, fits))
  | inr over ↦ absurd (ground (arith, e, over))
]
to_long-IsLong (false, n) z e = elim (Bool-cases (ltb n (2 ^ 63))) [
  | inl fits ↦ subst IsLong (some-injective _ _ (rw fits at e)) (ground (arith, fits), omega arith)
  | inr over ↦ absurd (ground (arith, e, over))
]

stol-IsLong : (s : Bytes) (z : ℤ) → stol s ≡ some z → IsLong z
unfolding stol
stol-IsLong s z e = elim (Option-cases (signed_number (skip_space s))) [
  | inl bad ↦ absurd (ground (arith, rw bad at e))
  | inr (number, good) ↦ to_long-IsLong number z (rw good at e)
]

to_string-sign : (n : ℕ) (s : Bytes) → to_string n ≢ b'-' ∷ s
to_string-sign n s e = let (low, high, h) = subst AreDigits e (to_string-AreDigits n) in omega arith

tail : Bytes → Bytes
tail [] = []
tail (c ∷ s) = s

to_string_ℤ_injective : (a b : ℤ) → IsLong a → IsLong b → to_string_ℤ a ≡ to_string_ℤ b → a ≡ b
unfolding to_string_ℤ tail
to_string_ℤ_injective (pos m) (pos n) (h, h') (k, k') e =
    ap pos (to_string_injective m n (omega arith) (omega arith) e)
to_string_ℤ_injective (pos m) (negsuc n) h k e = absurd (to_string-sign m _ e)
to_string_ℤ_injective (negsuc m) (pos n) h k e = absurd (to_string-sign n _ (sym e))
to_string_ℤ_injective (negsuc m) (negsuc n) (h, h') (k, k') e =
    let same : suc m ≡ suc n =
      to_string_injective (suc m) (suc n) (omega arith) (omega arith) (ap tail e) in
    ap negsuc (omega (arith, same))

join_key_injective :
    (a b : ℤ) (key other : Bytes)
    → IsLong a
    → IsLong b
    → join_key a key ≡ join_key b other
    → (a ≡ b) × (key ≡ other)
unfolding tail
join_key_injective a b key other h k e =
    let cut : (z : ℤ) (rest : Bytes)
        → cut_at b':' (join_key z rest) ≡ some (b'p' ∷ to_string_ℤ z, rest) =
      λ z rest. cut_at-append b':' (b'p' ∷ to_string_ℤ z) rest (omega arith, to_string_ℤ-Lacks z) in
    let same : some (b'p' ∷ to_string_ℤ a, key) ≡ some (b'p' ∷ to_string_ℤ b, other) =
      sym (cut a key) ∙ ap (cut_at b':') e ∙ cut b other in
    let pair = some-injective _ _ same in
    (
      to_string_ℤ_injective a b h k (ap (λ (p : Bytes × Bytes). tail p.0) pair),
      ap (λ (p : Bytes × Bytes). p.1) pair,
    )

package_of-IsLong : (h : Host) (dir : FsPath) → IsLong (package_of h dir)
unfolding read_long_file
package_of-IsLong h dir = elim (Option-cases (read_long_file h file)) [
  | inl bad ↦ subst Fits (sym bad) (omega arith, omega arith)
  | inr (id, good) ↦ elim (Option-cases (read_first_line h file)) [
    | inl bad ↦ absurd (ground (arith, rw bad at good))
    | inr (line, e) ↦ subst Fits (sym good) (stol-IsLong line id (rw e at good))
  ]
]
  where
    file : FsPath
    file = dir /p bytes "topology" /p bytes "physical_package_id"

    Fits : Option ℤ → Type 0
    Fits o = IsLong (value_or o (pos 0))

-- Two cpus have one key exactly when they are in one package and have one cache.
pub full_key_same :
    (h : Host) (cpu_root : FsPath) (a b : ℕ)
    → (full_key h cpu_root a ≡ full_key h cpu_root b) ↔ (
        (package_of h (cpu_dir cpu_root a) ≡ package_of h (cpu_dir cpu_root b))
        × (cache_key h (cpu_dir cpu_root a) ≡ cache_key h (cpu_dir cpu_root b)))
unfolding full_key
full_key_same h cpu_root a b = (
  join_key_injective _ _ _ _ (package_of-IsLong h (cpu_dir cpu_root a))
      (package_of-IsLong h (cpu_dir cpu_root b)),
  λ (packages, caches).
      ap (λ i. join_key i (cache_key h (cpu_dir cpu_root a))) packages ∙ ap (join_key _) caches,
)
