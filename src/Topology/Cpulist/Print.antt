-- ===== src/Topology/Cpulist/Print.antt =====
-- The lists of cpus that the kernel prints, read back.
use lunar_sched.Base.{
  ℕ, zero, suc, ◌+◌, ◌-◌, ◌^◌, ◌≤◌, ◌<◌, ◌≡◌, refl, ◌∙◌, sym, ap, subst, ◌⊎◌, inl, inr, false, ◌&&◌,
  none, some, List, [], ◌∷◌, ◌++◌, map, arith, ltb, leb, if◌then◌else◌, u32, add64,
}
use lunar_sched.Text.{Bytes, length, length-append, stoul, get_lines, cut_at, to_string}
use lunar_sched.Text.Decimal.{
  stoul-empty, cut_at-empty, get_lines-empty, Lacks, Lacks-append, AreDigits-Lacks,
  to_string-AreDigits, to_string-cons, stoul-to_string, cut_at-append, cut_at-Lacks,
  get_lines-append, get_lines-last,
}
use lunar_sched.Topology.Cpulist.{
  push_range, push_one, parse_range, parse_token, parse_tokens, parse_cpulist,
}

-- `count` cpus from `lo` on.
abbrev pub cpus_from : ℕ → ℕ → List ℕ
cpus_from lo zero = []
cpus_from lo (suc count) = u32 lo ∷ cpus_from (lo + 1) count

push_range-cpus_from :
    (count room lo hi : ℕ)
    → lo + count ≡ suc hi
    → count ≤ room
    → hi + 1 < 2 ^ 64
    → push_range room lo hi ≡ some (cpus_from lo count)
unfolding push_range
push_range-cpus_from zero zero lo hi e fits small = ground arith
push_range-cpus_from zero (suc room) lo hi e fits small = ground arith
push_range-cpus_from (suc count) zero lo hi e fits small = absurd (omega arith)
push_range-cpus_from (suc count) (suc room) lo hi e fits small =
    ground (arith, push_range-cpus_from count room (lo + 1) hi (omega arith) (omega arith) small)

push_range-full : (room lo hi : ℕ) → lo + room ≤ hi → hi < 2 ^ 64 → push_range room lo hi ≡ none
unfolding push_range
push_range-full zero lo hi over small = ground arith
push_range-full (suc room) lo hi over small =
    ground (arith, push_range-full room (lo + 1) hi (omega arith) small)

push_range-endless : (room lo : ℕ) → lo < 2 ^ 64 → push_range room lo (2 ^ 64 - 1) ≡ none
unfolding push_range
push_range-endless zero lo small = ground arith
push_range-endless (suc room) lo small =
    ground (arith, push_range-endless room (add64 lo 1) (omega arith))

-- The loop over a range ends for every range of words: by an exception when the vector is too small or the range
-- ends at the largest word, else with each cpu of the range.
pub push_range-ends :
    (room lo hi : ℕ)
    → lo ≤ hi
    → hi < 2 ^ 64
    → push_range room lo hi ≡ (
        if leb (hi + 1) (room + lo) && ltb hi (2 ^ 64 - 1)
        then some (cpus_from lo (hi + 1 - lo))
        else none)
push_range-ends room lo hi order small = elim bounds [
  | inl end ↦ ground (arith, end, push_range-endless room lo (omega arith))
  | inr (inl (inner, over)) ↦
      ground (arith, inner, over, push_range-full room lo hi (omega arith) small)
  | inr (inr (inner, fits)) ↦ ground (
    arith,
    inner,
    fits,
    push_range-cpus_from (hi + 1 - lo) room lo hi (omega arith) (omega arith) (omega arith),
  )
]
  where
    bounds :
        (hi ≡ 2 ^ 64 - 1)
        ⊎ (((hi < 2 ^ 64 - 1) × (room + lo < hi + 1)) ⊎ ((hi < 2 ^ 64 - 1) × (hi + 1 ≤ room + lo)))
    bounds = ground arith

-- An item of a list of cpus: one cpu, or a range with its first and last cpu.
pub data Item : Type 0 where
  one : ℕ → Item
  span : ℕ → ℕ → Item

abbrev pub IsItem : Item → Type 0
IsItem (one c) = c < 2 ^ 64
IsItem (span lo hi) = (lo ≤ hi) × (hi + 1 < 2 ^ 64)

abbrev pub cpus_of : Item → List ℕ
cpus_of (one c) = u32 c ∷ []
cpus_of (span lo hi) = cpus_from lo (hi + 1 - lo)

abbrev pub print_item : Item → Bytes
print_item (one c) = to_string c
print_item (span lo hi) = to_string lo ++ b'-' ∷ to_string hi

-- A list of items as the kernel prints it: `0-3,8`.
abbrev pub print_items : List Item → Bytes
print_items [] = []
print_items (item ∷ []) = print_item item
print_items (item ∷ next ∷ items) = print_item item ++ b',' ∷ print_items (next ∷ items)

abbrev pub cpus_of_all : List Item → List ℕ
cpus_of_all [] = []
cpus_of_all (item ∷ items) = cpus_of item ++ cpus_of_all items

abbrev pub AreItems : List Item → Type 0
AreItems [] = Unit {0}
AreItems (item ∷ items) = IsItem item × AreItems items

length-cpus_from : (lo count : ℕ) → length (cpus_from lo count) ≡ count
length-cpus_from lo zero = refl
length-cpus_from lo (suc count) = ap suc (length-cpus_from (lo + 1) count)

to_string-Lacks : (sep n : ℕ) → (sep < b'0') ⊎ (b'9' < sep) → Lacks sep (to_string n)
to_string-Lacks sep n h = AreDigits-Lacks sep _ h (to_string-AreDigits n)

push_one-room : (room c : ℕ) → 0 < room → push_one room c ≡ some (u32 c ∷ [])
unfolding push_one
push_one-room zero c h = absurd (omega arith)
push_one-room (suc room) c h = refl

parse_token-Lacks :
    (room n : ℕ) (s : Bytes)
    → Lacks b'-' s
    → stoul s ≡ some n
    → parse_token room s ≡ push_one room n
unfolding parse_token
parse_token-Lacks room n [] h e = absurd (ground (arith, stoul-empty, e))
parse_token-Lacks room n (c ∷ s) h e = rw (parse_token, cut_at-Lacks b'-' (c ∷ s) h, e) refl

parse_token-cut_at :
    (room : ℕ) (s front rest : Bytes)
    → cut_at b'-' s ≡ some (front, rest)
    → parse_token room s ≡ parse_range room front rest
unfolding parse_token
parse_token-cut_at room [] front rest e = absurd (ground (arith, cut_at-empty b'-', e))
parse_token-cut_at room (c ∷ s) front rest e = rw (parse_token, e) refl

parse_token-print_item :
    (item : Item) (room : ℕ)
    → IsItem item
    → length (cpus_of item) ≤ room
    → parse_token room (print_item item) ≡ some (cpus_of item)
parse_token-print_item (one c) room h fits =
    parse_token-Lacks room c _ (to_string-Lacks b'-' c (omega arith)) (stoul-to_string c h)
    ∙ push_one-room room c (omega arith)
parse_token-print_item (span lo hi) room (order, small) fits =
    parse_token-cut_at room _ _ _
      (cut_at-append b'-' (to_string lo) (to_string hi) (to_string-Lacks b'-' lo (omega arith)))
    ∙ rw (stoul-to_string lo (omega arith), stoul-to_string hi (omega arith))
        (let below : ltb hi lo ≡ false = ground arith in
          let pushed =
            push_range-cpus_from (hi + 1 - lo) room lo hi (omega arith)
              (omega (arith, length-cpus_from lo (hi + 1 - lo))) small in
          rw (below, pushed) refl)

print_item-Lacks : (item : Item) → Lacks b',' (print_item item)
print_item-Lacks (one c) = to_string-Lacks b',' c (omega arith)
print_item-Lacks (span lo hi) =
    Lacks-append b',' (to_string lo) _ (to_string-Lacks b',' lo (omega arith))
      (omega arith, to_string-Lacks b',' hi (omega arith))

print_item-cons : (item : Item) → (c : ℕ) × (s : Bytes) × (print_item item ≡ c ∷ s)
print_item-cons (one n) = to_string-cons n
print_item-cons (span lo hi) =
    let (c, s, e) = to_string-cons lo in
    (c, s ++ b'-' ∷ to_string hi, ap (λ t. t ++ b'-' ∷ to_string hi) e)

get_lines-print_items :
    (items : List Item) → get_lines b',' (print_items items) ≡ map print_item items
get_lines-print_items [] = get_lines-empty b','
get_lines-print_items (item ∷ []) =
    let (c, s, e) = print_item-cons item in
    let line = get_lines-last b',' c s (subst (Lacks b',') e (print_item-Lacks item)) in
    ap (get_lines b',') e ∙ line ∙ ap (λ t. t ∷ []) (sym e)
get_lines-print_items (item ∷ next ∷ items) =
    get_lines-append b',' (print_item item) _ (print_item-Lacks item)
    ∙ ap (λ l. print_item item ∷ l) (get_lines-print_items (next ∷ items))

parse_tokens-print_items :
    (items : List Item) (room : ℕ)
    → AreItems items
    → length (cpus_of_all items) ≤ room
    → parse_tokens room (map print_item items) ≡ some (cpus_of_all items)
unfolding parse_tokens
parse_tokens-print_items [] room h fits = refl
parse_tokens-print_items (item ∷ items) room (h, k) fits =
    let count = length-append (cpus_of item) (cpus_of_all items) in
    let first = parse_token-print_item item room h (omega (arith, count)) in
    let others =
      parse_tokens-print_items items (room - length (cpus_of item)) k (omega (arith, count)) in
    rw (parse_tokens, first, others) refl

-- A list of cpus in the form in which the kernel prints it, read back, gives each cpu of each item in order.
pub parse_cpulist-print_items :
    (items : List Item) (max_size : ℕ)
    → AreItems items
    → length (cpus_of_all items) ≤ max_size
    → parse_cpulist max_size (print_items items) ≡ some (cpus_of_all items)
unfolding parse_cpulist
parse_cpulist-print_items items max_size h fits =
    ap (parse_tokens max_size) (get_lines-print_items items)
    ∙ parse_tokens-print_items items max_size h fits
