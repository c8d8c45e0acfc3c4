-- ===== src/Topology/Read/Groups.antt =====
-- The map from keys to ids that `read_topology` builds.
use lunar_sched.Base.{
  ℕ, ◌<◌, ◌≡◌, refl, ◌∙◌, sym, ap, inl, inr, true, none, some, [], ◌∷◌, arith, ◌==◌, ==→eq,
  Bool-cases,
}
use lunar_sched.Text.{Bytes, length, same_text}
use lunar_sched.Topology.Read.{Groups, find_group}

same_text→eq : (s t : Bytes) → same_text s t ≡ true → s ≡ t
same_text→eq [] [] h = refl
same_text→eq [] (d ∷ t) h = absurd (ground (arith, h))
same_text→eq (c ∷ s) [] h = absurd (ground (arith, h))
same_text→eq (c ∷ s) (d ∷ t) h =
    ap (λ x. x ∷ s) (ground (arith, h)) ∙ ap (λ l. d ∷ l) (same_text→eq s t (ground (arith, h)))

same_text_self : (s : Bytes) → same_text s s ≡ true
same_text_self [] = refl
same_text_self (c ∷ s) = ground (arith, same_text_self s)

-- The entries are numbered from the last to the first, and no key has two entries.
abbrev pub Numbered : Groups → Type 0
Numbered [] = Unit {0}
Numbered ((key, id) ∷ groups) =
    (id ≡ length groups) × (find_group key groups ≡ none) × Numbered groups

pub find_group_new :
    (key : Bytes) (id : ℕ) (groups : Groups) → find_group key ((key, id) ∷ groups) ≡ some id
unfolding find_group
find_group_new key id groups = rw (same_text_self key) refl

-- An entry that is added hides no other one.
pub find_group_old :
    (key other : Bytes) (id n : ℕ) (groups : Groups)
    → find_group key groups ≡ none
    → find_group other groups ≡ some n
    → find_group other ((key, id) ∷ groups) ≡ some n
unfolding find_group
find_group_old key other id n groups h e = elim (Bool-cases (same_text other key)) [
  | inl same ↦
      absurd (ground (arith, h, e, ap (λ k. find_group k groups) (same_text→eq other key same)))
  | inr differs ↦ rw (find_group, differs, e) refl
]

pub find_group-below :
    (key : Bytes) (n : ℕ) (groups : Groups)
    → Numbered groups
    → find_group key groups ≡ some n
    → n < length groups
unfolding find_group
find_group-below key n [] h e = absurd (ground (arith, e))
find_group-below key n ((other, id) ∷ groups) (at, fresh, h) e =
    elim (Bool-cases (same_text key other)) [
      | inl same ↦ ground (arith, at, e, same)
      | inr differs ↦ ground (arith, e, differs, find_group-below key n groups h)
    ]

-- Keys with one id are the same.
pub find_group_injective :
    (a b : Bytes) (n : ℕ) (groups : Groups)
    → Numbered groups
    → find_group a groups ≡ some n
    → find_group b groups ≡ some n
    → a ≡ b
unfolding find_group
find_group_injective a b n [] h e k = absurd (ground (arith, e))
find_group_injective a b n ((other, id) ∷ groups) (at, fresh, h) e k =
    elim (Bool-cases (same_text a other)) [
      | inl same_a ↦ elim (Bool-cases (same_text b other)) [
        | inl same_b ↦ same_text→eq a other same_a ∙ sym (same_text→eq b other same_b)
        | inr differs_b ↦
            absurd (ground (arith, at, e, k, same_a, differs_b, find_group-below b n groups h))
      ]
      | inr differs_a ↦ elim (Bool-cases (same_text b other)) [
        | inl same_b ↦
            absurd (ground (arith, at, e, k, differs_a, same_b, find_group-below a n groups h))
        | inr differs_b ↦
            find_group_injective a b n groups h (ground (arith, e, differs_a))
              (ground (arith, k, differs_b))
      ]
    ]

-- Each number below the size is the id of a key.
pub find_group_onto :
    (n : ℕ) (groups : Groups)
    → Numbered groups
    → n < length groups
    → (key : Bytes) × (find_group key groups ≡ some n)
find_group_onto n [] h below = absurd (omega arith)
find_group_onto n ((key, id) ∷ groups) (at, fresh, h) below =
    elim (Bool-cases (n == length groups)) [
      | inl last ↦ (key, find_group_new key id groups ∙ ap some (at ∙ sym (==→eq n _ last)))
      | inr other ↦
          let (k, e) = find_group_onto n groups h (ground (arith, other)) in
          (k, find_group_old key k id n groups fresh e)
    ]
