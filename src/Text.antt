-- ===== src/Text.antt =====
-- The text functions of the C++ library that the loader calls: std::getline, find, stoul, stol, to_string.
-- A text is the list of its bytes.
pub mod Decimal
use Prim.Native.Char.{code}
use Prim.Native.String.{String}
use lunar_sched.Base.{
  ◌≡◌, arith, ℕ, zero, suc, ◌+◌, ◌-◌, ◌*◌, ◌/◌, ◌%◌, ◌^◌, Bool, true, false, ◌&&◌, ◌||◌, Option,
  none, some, List, [], ◌∷◌, ◌++◌, ltb, leb, ◌==◌, if◌then◌else◌, ◌>>=◌,
}
use lunar_sched.Base.Int.{ℤ, pos, negsuc}

abbrev pub Bytes : Type 0
Bytes = List ℕ

-- The bytes of an ASCII literal.
abbrev pub bytes : String → Bytes
bytes String.[] = []
bytes (String.◌∷◌ c s) = code c ∷ bytes s

abbrev pub length {ℓ} : {A : Type ℓ} → List A → ℕ
length [] = 0
length (a ∷ rest) = suc (length rest)

pub length-append {ℓ} : {A : Type ℓ} (s t : List A) → length (s ++ t) ≡ length s + length t
length-append [] t = omega arith
length-append (a ∷ s) t = omega (arith, length-append s t)

abbrev pub same_text : Bytes → Bytes → Bool
same_text [] [] = true
same_text [] (d ∷ t) = false
same_text (c ∷ s) [] = false
same_text (c ∷ s) (d ∷ t) = c == d && same_text s t

abbrev pub is_digit : ℕ → Bool
is_digit c = leb b'0' c && leb c b'9'

-- `isspace`: blank, and from tab to carriage return.
abbrev pub is_space : ℕ → Bool
is_space c = c == 32 || leb 9 c && leb c 13

unfoldable pub skip_space : Bytes → Bytes
skip_space [] = []
skip_space (c ∷ s) = if is_space c then skip_space s else c ∷ s

-- The number that the digits at the front of a text spell, after those that spelled `n`. `none` when there
-- is no digit.
unfoldable pub leading_number : Bool → ℕ → Bytes → Option ℕ
leading_number seen n [] = if seen then some n else none
leading_number seen n (c ∷ s) = elim (is_digit c) [
  | true ↦ leading_number true (n * 10 + (c - b'0')) s
  | false ↦ if seen then some n else none
]

-- A sign, and the number behind it.
unfoldable pub signed_number : Bytes → Option (Bool × ℕ)
signed_number [] = none
signed_number (c ∷ s) =
    let sign : Bool = c == b'-' in
    elim (leading_number false 0 (if c == b'-' || c == b'+' then s else c ∷ s)) [
      | none ↦ none
      | some n ↦ some (sign, n)
    ]

-- `std::stoul` of 64 bits in base 10; `none` is an exception. A minus sign negates in the unsigned type, and
-- what follows the number is ignored.
unfoldable pub stoul : Bytes → Option ℕ
stoul s = elim (signed_number (skip_space s)) [
  | none ↦ none
  | some (minus, n) ↦
      if ltb n (2 ^ 64) then some (if minus then (2 ^ 64 - n) % 2 ^ 64 else n) else none
]

abbrev pub to_long : Bool × ℕ → Option ℤ
to_long (true, zero) = some (pos 0)
to_long (true, suc n) = if ltb n (2 ^ 63) then some (negsuc n) else none
to_long (false, n) = if ltb n (2 ^ 63) then some (pos n) else none

-- `std::stol` of 64 bits in base 10.
unfoldable pub stol : Bytes → Option ℤ
stol s = do number ← signed_number (skip_space s); to_long number

-- The results of `std::getline` with a separator, one call after another, until it fails: a last line that is
-- empty is not returned.
add_to_first : ℕ → List Bytes → List Bytes
add_to_first c [] = (c ∷ []) ∷ []
add_to_first c (line ∷ lines) = (c ∷ line) ∷ lines

unfoldable pub get_lines : ℕ → Bytes → List Bytes
unfolding add_to_first
get_lines sep [] = []
get_lines sep (c ∷ s) =
    let lines : List Bytes = get_lines sep s in
    if c == sep then [] ∷ lines else add_to_first c lines

-- `find` of a byte, with the two `suttr` around it.
unfoldable pub cut_at : ℕ → Bytes → Option (Bytes × Bytes)
cut_at sep [] = none
cut_at sep (c ∷ s) =
    if c == sep
    then some ([], s)
    else (elim (cut_at sep s) [ none ↦ none | some (front, rest) ↦ some (c ∷ front, rest) ])

-- `std::to_string`: at most 20 digits, for 64 bits.
unfoldable pub digits : ℕ → ℕ → Bytes → Bytes
digits zero n out = out
digits (suc fuel) n out =
    let rest : Bytes = digits fuel (n / 10) ((b'0' + n % 10) ∷ out) in
    if n / 10 == 0 then (b'0' + n % 10) ∷ out else rest

unfoldable pub to_string : ℕ → Bytes
to_string n = digits 20 n []

unfoldable pub to_string_ℤ : ℤ → Bytes
to_string_ℤ (pos n) = to_string n
to_string_ℤ (negsuc n) = b'-' ∷ to_string (suc n)
