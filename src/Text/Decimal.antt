-- ===== src/Text/Decimal.antt =====
-- Numbers printed and read back.
use lunar_sched.Base.{
  ℕ, zero, suc, ◌+◌, ◌-◌, ◌*◌, ◌/◌, ◌%◌, ◌^◌, ◌≤◌, ◌<◌, ◌≡◌, ◌≢◌, refl, ◌∙◌, sym, ap, subst, ◌⊎◌,
  inl, inr, Bool, true, none, some, [], ◌∷◌, ◌++◌, arith, ◌==◌, Bool-cases,
}
use lunar_sched.Base.Int.{ℤ, pos, negsuc}
use lunar_sched.Text.{
  Bytes, skip_space, leading_number, signed_number, stoul, digits, to_string, to_string_ℤ, cut_at,
  get_lines,
}

abbrev pub AreDigits : Bytes → Type 0
AreDigits [] = Unit {0}
AreDigits (c ∷ s) = (b'0' ≤ c) × (c ≤ b'9') × AreDigits s

-- The number that digits spell, after those that spelled `n`.
abbrev pub spells : ℕ → Bytes → ℕ
spells n [] = n
spells n (c ∷ s) = spells (n * 10 + (c - b'0')) s

le-spells : (n : ℕ) (s : Bytes) → n ≤ spells n s
le-spells n [] = omega arith
le-spells n (c ∷ s) = omega (arith, le-spells (n * 10 + (c - b'0')) s)

leading_number-spells :
    (seen : Bool) (n : ℕ) (s : Bytes) → AreDigits s → leading_number true n s ≡ some (spells n s)
unfolding leading_number
leading_number-spells seen n [] h = refl
leading_number-spells seen n (c ∷ s) (low, high, h) =
    ground (arith, leading_number-spells seen (n * 10 + (c - b'0')) s h)

pub stoul-empty : stoul [] ≡ none
unfolding stoul signed_number skip_space
stoul-empty = refl

pub cut_at-empty : (sep : ℕ) → cut_at sep [] ≡ none
unfolding cut_at
cut_at-empty sep = refl

pub get_lines-empty : (sep : ℕ) → get_lines sep [] ≡ []
unfolding get_lines
get_lines-empty sep = refl

-- `stoul` reads a text of digits as the number that it spells.
pub stoul-spells :
    (c : ℕ) (s : Bytes)
    → AreDigits (c ∷ s)
    → spells 0 (c ∷ s) < 2 ^ 64
    → stoul (c ∷ s) ≡ some (spells 0 (c ∷ s))
unfolding stoul signed_number skip_space leading_number
stoul-spells c s (low, high, h) fits =
    ground (arith, leading_number-spells true (0 * 10 + (c - b'0')) s h)

digits-AreDigits : (fuel n : ℕ) (out : Bytes) → AreDigits out → AreDigits (digits fuel n out)
unfolding digits
digits-AreDigits zero n out h = h
digits-AreDigits (suc fuel) n out h =
    ground
      (arith, digits-AreDigits fuel (n / 10) ((b'0' + n % 10) ∷ out) (omega arith, omega arith, h))

spells-digits :
    (fuel n : ℕ) (out : Bytes)
    → n < 10 ^ fuel
    → 0 < fuel
    → spells 0 (digits fuel n out) ≡ spells n out
unfolding digits
spells-digits zero n out h k = absurd (omega arith)
spells-digits (suc zero) n out h k = ground arith
spells-digits (suc (suc fuel)) n out h k =
    ground
      (arith, spells-digits (suc fuel) (n / 10) ((b'0' + n % 10) ∷ out) (omega arith) (omega arith))

digits-cons :
    (fuel n : ℕ) (out : Bytes) → 0 < fuel → (c : ℕ) × (s : Bytes) × (digits fuel n out ≡ c ∷ s)
unfolding digits
digits-cons zero n out h = absurd (omega arith)
digits-cons (suc zero) n out h = elim (Bool-cases (n / 10 == 0)) [
  | inl e ↦ (b'0' + n % 10, out, rw e refl)
  | inr e ↦ (b'0' + n % 10, out, rw e refl)
]
digits-cons (suc (suc fuel)) n out h = elim (Bool-cases (n / 10 == 0)) [
  | inl e ↦ (b'0' + n % 10, out, rw e refl)
  | inr e ↦
      let (c, s, k) = digits-cons (suc fuel) (n / 10) ((b'0' + n % 10) ∷ out) (omega arith) in
      (c, s, rw e k)
]

pub to_string-AreDigits : (n : ℕ) → AreDigits (to_string n)
unfolding to_string
to_string-AreDigits n = digits-AreDigits 20 n [] tt

pub spells-to_string : (n : ℕ) → n < 10 ^ 20 → spells 0 (to_string n) ≡ n
unfolding to_string
spells-to_string n h = spells-digits 20 n [] h (omega arith)

pub to_string-cons : (n : ℕ) → (c : ℕ) × (s : Bytes) × (to_string n ≡ c ∷ s)
unfolding to_string
to_string-cons n = digits-cons 20 n [] (omega arith)

-- Every unsigned 64-bit number is read back from its decimal print.
pub stoul-to_string : (n : ℕ) → n < 2 ^ 64 → stoul (to_string n) ≡ some n
stoul-to_string n h =
    let (c, s, e) = to_string-cons n in
    let value : spells 0 (c ∷ s) ≡ n = ap (spells 0) (sym e) ∙ spells-to_string n (omega arith) in
    ap stoul e
    ∙ stoul-spells c s (subst AreDigits e (to_string-AreDigits n)) (omega (arith, value))
    ∙ ap some value

pub to_string_injective : (a b : ℕ) → a < 10 ^ 20 → b < 10 ^ 20 → to_string a ≡ to_string b → a ≡ b
to_string_injective a b h k e = sym (spells-to_string a h) ∙ ap (spells 0) e ∙ spells-to_string b k

-- No byte of a text is `sep`.
abbrev pub Lacks : ℕ → Bytes → Type 0
Lacks sep [] = Unit {0}
Lacks sep (c ∷ s) = (c ≢ sep) × Lacks sep s

pub Lacks-append : (sep : ℕ) (s t : Bytes) → Lacks sep s → Lacks sep t → Lacks sep (s ++ t)
Lacks-append sep [] t h k = k
Lacks-append sep (c ∷ s) t (g, h) k = (g, Lacks-append sep s t h k)

pub AreDigits-Lacks :
    (sep : ℕ) (s : Bytes) → (sep < b'0') ⊎ (b'9' < sep) → AreDigits s → Lacks sep s
AreDigits-Lacks sep [] h k = tt
AreDigits-Lacks sep (c ∷ s) h (low, high, k) = (omega (arith, h), AreDigits-Lacks sep s h k)

pub to_string_ℤ-Lacks : (z : ℤ) → Lacks b':' (to_string_ℤ z)
unfolding to_string_ℤ
to_string_ℤ-Lacks (pos n) = AreDigits-Lacks b':' _ (omega arith) (to_string-AreDigits n)
to_string_ℤ-Lacks (negsuc n) =
    (omega arith, AreDigits-Lacks b':' _ (omega arith) (to_string-AreDigits (suc n)))

pub cut_at-append :
    (sep : ℕ) (front rest : Bytes)
    → Lacks sep front
    → cut_at sep (front ++ sep ∷ rest) ≡ some (front, rest)
unfolding cut_at
cut_at-append sep [] rest h = ground arith
cut_at-append sep (c ∷ front) rest (h, k) = ground (arith, cut_at-append sep front rest k)

pub cut_at-Lacks : (sep : ℕ) (s : Bytes) → Lacks sep s → cut_at sep s ≡ none
unfolding cut_at
cut_at-Lacks sep [] h = refl
cut_at-Lacks sep (c ∷ s) (h, k) = ground (arith, cut_at-Lacks sep s k)

-- A line that ends at a separator, and a last line.
pub get_lines-append :
    (sep : ℕ) (line rest : Bytes)
    → Lacks sep line
    → get_lines sep (line ++ sep ∷ rest) ≡ line ∷ get_lines sep rest
unfolding get_lines
get_lines-append sep [] rest h = ground arith
get_lines-append sep (c ∷ line) rest (h, k) = ground (arith, get_lines-append sep line rest k)

pub get_lines-last :
    (sep c : ℕ) (line : Bytes) → Lacks sep (c ∷ line) → get_lines sep (c ∷ line) ≡ (c ∷ line) ∷ []
unfolding get_lines
get_lines-last sep c [] (h, k) = ground arith
get_lines-last sep c (d ∷ line) (h, k) = ground (arith, get_lines-last sep d line k)
