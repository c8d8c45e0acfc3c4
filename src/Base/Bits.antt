-- ===== src/Base/Bits.antt =====
-- The bits that a mask selects, as quotients and remainders.
use Prim.Native.Nat.{
  ℕ, zero, suc, ◌+◌, ◌-◌, ◌*◌, ◌/◌, ◌%◌, ◌^◌, ◌≤◌, ◌<◌, bit_and, bit_and-bitwise, bit_or,
  bit_or-bitwise, digits, min, max,
}
use mathlib.Core.Path.{◌≡◌, refl, sym, ap, ◌∙◌}
use native.Mathlib.Nat.{
  div-div-eq-div-mul, mul-one, div-one, mul_assoc, pow-suc, pow-succ', mod-add-div, mod-lt,
  mod-eq_of_lt, add-mul-mod_self_left,
}
use native.Mathlib.Omega.{arith}

-- A number without a digit left has no further one.
digits_one_more :
    (n a b : ℕ) → a ≤ n → digits (λ b. zero) min (suc n) a b ≡ digits (λ b. zero) min n a b
digits_one_more zero zero b h = refl
digits_one_more zero (suc a) b h = absurd (omega arith)
digits_one_more (suc n) zero b h = refl
digits_one_more (suc n) (suc a) b h =
    omega (arith, digits_one_more n (suc a / 2) (b / 2) (omega arith))

-- So the number is itself a count that is large enough.
digits_of_itself :
    (more a b : ℕ) → digits (λ b. zero) min (more + a) a b ≡ digits (λ b. zero) min a a b
digits_of_itself zero a b = ap (λ n. digits (λ b. zero) min n a b) (omega arith)
digits_of_itself (suc more) a b =
    ap (λ n. digits (λ b. zero) min n a b) {y = suc (more + a)} (omega arith)
    ∙ digits_one_more (more + a) a b (omega arith)
    ∙ digits_of_itself more a b

-- The lowest digit, and those above it.
pub bit_and_low_digit : (x y : ℕ) → bit_and x y ≡ min (x % 2) (y % 2) + 2 * bit_and (x / 2) (y / 2)
bit_and_low_digit zero y = omega (arith, bit_and-bitwise 0 (y / 2), bit_and-bitwise 0 y)
bit_and_low_digit (suc x) y =
    let half : ℕ = suc x / 2 in
    let count : x - half + half ≡ x = omega arith in
    let above : digits (λ b. zero) min x half (y / 2) ≡ bit_and half (y / 2) =
      ap (λ n. digits (λ b. zero) min n half (y / 2)) (sym count)
      ∙ digits_of_itself (x - half) half (y / 2)
      ∙ sym (bit_and-bitwise half (y / 2)) in
    omega (arith, above, bit_and-bitwise (suc x) y)

digits-zero : (n a : ℕ) → digits (λ b. zero) min n a 0 ≡ 0
digits-zero zero a = refl
digits-zero (suc n) zero = refl
digits-zero (suc n) (suc a) = omega (arith, digits-zero n (suc a / 2))

bit_and-zero : (a : ℕ) → bit_and a 0 ≡ 0
bit_and-zero a = bit_and-bitwise a 0 ∙ digits-zero a a

pow_suc : (k : ℕ) → 2 ^ suc k ≡ 2 * 2 ^ k
pow_suc k = pow-succ' 2 k

pow_pos : (k : ℕ) → 0 < 2 ^ k
pow_pos zero = omega arith
pow_pos (suc k) = omega (arith, pow_suc k, pow_pos k)

-- A mask of the bits from `k` on.
pub bit_and_high : (k a m : ℕ) → bit_and a (m * 2 ^ k) ≡ bit_and (a / 2 ^ k) m * 2 ^ k
bit_and_high zero a m = omega (arith, ap (bit_and a) (mul-one m), ap (λ x. bit_and x m) (div-one a))
bit_and_high (suc k) a m =
    let double : (x : ℕ) → x * 2 ^ suc k ≡ x * 2 ^ k * 2 =
      λ x. ap (λ p. x * p) (pow-suc 2 k) ∙ sym (mul_assoc x (2 ^ k) 2) in
    let half : m * 2 ^ k * 2 / 2 ≡ m * 2 ^ k = omega arith in
    let even : m * 2 ^ k * 2 % 2 ≡ 0 = omega arith in
    let halves : a / 2 / 2 ^ k ≡ a / 2 ^ suc k =
      div-div-eq-div-mul a 2 (2 ^ k) ∙ ap (λ p. a / p) (sym (pow_suc k)) in
    ap (bit_and a) (double m)
    ∙ bit_and_low_digit a (m * 2 ^ k * 2)
    ∙ rw (half, even, bit_and_high k (a / 2) m, halves)
        (omega (arith, double (bit_and (a / 2 ^ suc k) m)))

-- A mask of the bits below `k`.
pub bit_and_low : (k a : ℕ) → bit_and a (2 ^ k - 1) ≡ a % 2 ^ k
bit_and_low zero a = omega (arith, bit_and-zero a)
bit_and_low (suc k) a =
    let half : (2 ^ suc k - 1) / 2 ≡ 2 ^ k - 1 = omega (arith, pow_suc k, pow_pos k) in
    let one : (2 ^ suc k - 1) % 2 ≡ 1 = omega (arith, pow_suc k, pow_pos k) in
    bit_and_low_digit a (2 ^ suc k - 1)
    ∙ rw (half, one, bit_and_low k (a / 2))
        (let p : ℕ = 2 ^ k in
          let low : ℕ = min (a % 2) 1 + 2 * (a / 2 % p) in
          let parts : a ≡ low + 2 ^ suc k * (a / 2 / p) = omega (
            arith,
            mod-add-div (a / 2) p,
            ap (λ x. x * (a / 2 / p)) (pow_suc k) ∙ mul_assoc 2 p (a / 2 / p),
          ) in
          let below : low < 2 ^ suc k = omega (arith, mod-lt (a / 2) (pow_pos k), pow_suc k) in
          sym (
            ap (λ x. x % 2 ^ suc k) parts
            ∙ add-mul-mod_self_left low (2 ^ suc k) (a / 2 / p)
            ∙ mod-eq_of_lt below))

digits_or_left : (n a b : ℕ) → a ≤ n → a ≤ digits (λ b. b) max n a b
digits_or_left zero a b h = omega arith
digits_or_left (suc n) zero b h = omega arith
digits_or_left (suc n) (suc a) b h =
    omega (arith, digits_or_left n (suc a / 2) (b / 2) (omega arith))

digits_or_right : (n a b : ℕ) → b ≤ digits (λ b. b) max n a b
digits_or_right zero a b = omega arith
digits_or_right (suc n) zero b = omega arith
digits_or_right (suc n) (suc a) b = omega (arith, digits_or_right n (suc a / 2) (b / 2))

-- The bits of two numbers together are no less than those of each.
pub le-bit_or : (a b : ℕ) → (a ≤ bit_or a b) × (b ≤ bit_or a b)
le-bit_or a b = (
  omega (arith, bit_or-bitwise a b, digits_or_left a a b (omega arith)),
  omega (arith, bit_or-bitwise a b, digits_or_right a a b),
)
