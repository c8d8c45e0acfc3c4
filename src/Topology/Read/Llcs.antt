-- ===== src/Topology/Read/Llcs.antt =====
-- The numbers that `read_topology` gives to the LLCs.
use lunar_sched.Base.{
  ℕ, ◌+◌, ◌-◌, ◌^◌, ◌≤◌, ◌<◌, ◌≡◌, refl, ◌∙◌, sym, ap, inl, inr, ◌↔◌, true, false, Option, some,
  List, [], ◌∷◌, arith, ◌==◌, Bool-cases, u32, max,
}
use lunar_sched.Topology.Read.Numbering.{lists, Numbering, add_cpus-Numbering}
use lunar_sched.Text.{Bytes, length}
use lunar_sched.Topology.Read.{
  Topology, topology, out_of_bounds, find_group, add_cpus, empty_topology, largest, id_source,
  max_cpu_id, number_llcs,
}
use lunar_sched.Topology.Read.Groups.{find_group-below, find_group_injective}

-- What the numbering promises. `online` are the cpus listed as online.
pub record NumbersLlcs (key_of : ℕ → Bytes) (cpus : List ℕ) (topo : Topology) : Type 0 where
  pub online : (c : ℕ) → topo.cpu_online c ≡ lists cpus c
  pub offline : (c : ℕ) → lists cpus c ≡ false → topo.cpu_to_llc c ≡ 0
  pub below :
      (c : ℕ) → lists cpus c ≡ true → (c < topo.nr_cpu_ids) × (topo.cpu_to_llc c < topo.nr_llcs)
  pub same_llc :
      (a b : ℕ)
      → lists cpus a ≡ true
      → lists cpus b ≡ true
      → (topo.cpu_to_llc a ≡ topo.cpu_to_llc b) ↔ (key_of a ≡ key_of b)
  pub used : (n : ℕ) → n < topo.nr_llcs → (c : ℕ) × (lists cpus c ≡ true) × (topo.cpu_to_llc c ≡ n)

-- The highest cpu of two lists.
le-largest : (n : ℕ) (cpus : List ℕ) → n ≤ largest n cpus
unfolding largest
le-largest n [] = omega arith
le-largest n (cpu ∷ cpus) = omega (arith, le-largest (max n cpu) cpus)

lists-largest : (n c : ℕ) (cpus : List ℕ) → lists cpus c ≡ true → c ≤ largest n cpus
unfolding largest
lists-largest n c [] h = absurd (ground (arith, h))
lists-largest n c (cpu ∷ cpus) h = elim (Bool-cases (cpu == c)) [
  | inl same ↦ ground (arith, same, le-largest (max n cpu) cpus)
  | inr other ↦ lists-largest (max n cpu) c cpus (ground (arith, h, other))
]

-- When no cpu has the largest number of 32 bits, all writes are in bounds, and the LLCs of the online cpus are
-- numbered from 0 without a gap, two cpus having one number exactly when they have one key.
pub number_llcs-NumbersLlcs :
    (key_of : ℕ → Bytes) (possible : Option (List ℕ)) (online : List ℕ)
    → max_cpu_id possible online + 1 < 2 ^ 32
    → length online < 2 ^ 32
    → (t : Topology) × (number_llcs key_of possible online ≡ topology t)
      × (t.nr_cpu_ids ≡ max_cpu_id possible online + 1)
      × NumbersLlcs key_of online t
unfolding number_llcs max_cpu_id
number_llcs-NumbersLlcs key_of possible online ids few =
    let nr : ℕ = u32 (max_cpu_id possible online + 1) in
    let start : Numbering key_of (empty_topology nr) [] = record {
      numbered = tt;
      online = λ c on. absurd (ground (arith, on));
      offline = λ c off. refl;
      used = λ n below. absurd (omega arith);
    } in
    let inside : (c : ℕ) → lists online c ≡ true → c < nr = λ c listed.
      omega (arith, lists-largest (largest 0 (id_source possible online)) c online listed) in
    let (t, all, e, k, llcs, size, on) =
      add_cpus-Numbering key_of online (empty_topology nr) [] (omega arith) inside start in
    let id : (c : ℕ) → lists online c ≡ true → find_group (key_of c) all ≡ some (t.cpu_to_llc c) =
      λ c listed. k.online c (ground (arith, on c, listed)) in
    (
      t,
      e,
      omega (arith, size),
      record {
        online = λ c. ground (arith, on c);
        offline = λ c listed. k.offline c (ground (arith, on c, listed));
        below = λ c listed. (
          omega (arith, size, inside c listed),
          omega (arith, llcs, find_group-below _ _ all k.numbered (id c listed)),
        );
        same_llc = λ a b on_a on_b. (
          (λ same.
              find_group_injective _ _ _ all k.numbered (id a on_a)
                (id b on_b ∙ ap some (sym same))),
          (λ same. ground (arith, id a on_a, id b on_b, ap (λ x. find_group x all) same)),
        );
        used = λ n below.
            let (c, listed, at) = k.used n (omega (arith, llcs)) in
            (c, ground (arith, on c, listed), at);
      },
    )

-- A list with the largest number of 32 bits makes the vectors empty, and the first write to one is out of bounds.
pub number_llcs-overflow :
    (key_of : ℕ → Bytes) (possible : Option (List ℕ)) (cpu : ℕ) (cpus : List ℕ)
    → max_cpu_id possible (cpu ∷ cpus) ≡ 2 ^ 32 - 1
    → number_llcs key_of possible (cpu ∷ cpus) ≡ out_of_bounds
unfolding number_llcs add_cpus
number_llcs-overflow key_of possible cpu cpus h =
    let none_fit : u32 (max_cpu_id possible (cpu ∷ cpus) + 1) ≡ 0 = omega (arith, h) in
    rw none_fit (ground arith)
