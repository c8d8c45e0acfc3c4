-- ===== src/Topology/Read/Numbering.antt =====
-- What the loop of `read_topology` over the online cpus keeps.
use lunar_sched.Base.{
  ℕ, ◌+◌, ◌^◌, ◌≤◌, ◌<◌, ◌≡◌, refl, ◌∙◌, sym, ap, subst, ◌⊎◌, inl, inr, Bool, true, false, ◌||◌,
  none, some, List, [], ◌∷◌, arith, ◌==◌, ==→eq, ==-self, Bool-cases, Option-cases, u32, update,
  ltb,
}
use lunar_sched.Text.{Bytes, length}
use lunar_sched.Topology.Read.{
  Topology, topology, Groups, find_group, try_emplace, place, add_cpu, add_cpus,
}
use lunar_sched.Topology.Read.Groups.{Numbered, find_group_new, find_group_old}

abbrev pub lists : List ℕ → ℕ → Bool
lists [] c = false
lists (cpu ∷ cpus) c = cpu == c || lists cpus c

-- The cpus that are online so far have the id of their key; each id is that of one of them.
pub record Numbering (key_of : ℕ → Bytes) (topo : Topology) (groups : Groups) : Type 0 where
  pub numbered : Numbered groups
  pub online :
      (c : ℕ) → topo.cpu_online c ≡ true → find_group (key_of c) groups ≡ some (topo.cpu_to_llc c)
  pub offline : (c : ℕ) → topo.cpu_online c ≡ false → topo.cpu_to_llc c ≡ 0
  pub used :
      (n : ℕ) → n < length groups → (c : ℕ) × (topo.cpu_online c ≡ true) × (topo.cpu_to_llc c ≡ n)

module _ (key_of : ℕ → Bytes) where
  -- The cpu gets the id of its key.
  put_cpu-Numbering :
      (cpu id : ℕ) (topo : Topology) (groups before : Groups)
      → Numbered groups
      → find_group (key_of cpu) groups ≡ some id
      → Numbering key_of topo before
      → ((key : Bytes) (n : ℕ) → find_group key before ≡ some n → find_group key groups ≡ some n)
      → ((n : ℕ) → n < length groups → (n < length before) ⊎ (n ≡ id))
      → Numbering key_of
          (record topo {
            cpu_online = update topo.cpu_online cpu true;
            cpu_to_llc = update topo.cpu_to_llc cpu id;
          })
          groups
  put_cpu-Numbering cpu id topo groups before h e k grows news = record {
    numbered = h;
    online = λ c on. elim (Bool-cases (cpu == c)) [
      | inl same ↦ rw same (ap (λ x. find_group (key_of x) groups) (sym (==→eq cpu c same)) ∙ e)
      | inr other ↦ rw other (grows (key_of c) _ (k.online c (ground (arith, on, other))))
    ];
    offline = λ c off. elim (Bool-cases (cpu == c)) [
      | inl same ↦ absurd (ground (arith, off, same))
      | inr other ↦ ground (arith, other, k.offline c (ground (arith, off, other)))
    ];
    used = λ n below. elim (news n below) [
      | inl old ↦
          let (c, on, at) = k.used n old in
          elim (Bool-cases (cpu == c)) [
            | inl same ↦ (
              c,
              rw same refl,
              rw same (
                  ground (
                    arith,
                    e,
                    at,
                    grows (key_of c) _ (k.online c on),
                    ap (λ x. find_group (key_of x) groups) (==→eq cpu c same),
                  )),
            )
            | inr other ↦ (c, rw other on, rw other at)
          ]
      | inr last ↦ (cpu, rw (==-self cpu) refl, rw (==-self cpu) (sym last))
    ];
  }

  add_cpu-Numbering :
      (cpu : ℕ) (topo : Topology) (groups : Groups)
      → length groups < 2 ^ 32
      → Numbering key_of topo groups
      → Numbering key_of (add_cpu key_of cpu topo groups).0 (add_cpu key_of cpu topo groups).1
        × (length (add_cpu key_of cpu topo groups).1 ≤ length groups + 1)
  add_cpu-Numbering cpu topo groups few h = elim (Option-cases (find_group (key_of cpu) groups)) [
    | inr (id, e) ↦ subst After (sym (found_as id e)) (
      put_cpu-Numbering cpu id topo groups groups h.numbered e h (λ key n found. found)
          (λ n below. inl below),
      omega arith,
    )
    | inl e ↦
        let id : ℕ = u32 (length groups) in
        subst After (sym (new_as e)) (
          put_cpu-Numbering cpu id topo ((key_of cpu, id) ∷ groups) groups
              (omega arith, e, h.numbered) (find_group_new (key_of cpu) id groups) h
              (λ key n found. find_group_old (key_of cpu) key id n groups e found)
              (λ n below. ground arith),
          omega arith,
        )
  ]
    where
      After : ℕ × Groups → Type 0
      After f =
          Numbering key_of (place cpu topo f).0 (place cpu topo f).1
          × (length (place cpu topo f).1 ≤ length groups + 1)

      found_as :
          (id : ℕ)
          → find_group (key_of cpu) groups ≡ some id
          → try_emplace (key_of cpu) groups ≡ (id, groups)
      found_as id e = rw (e, try_emplace) refl

      new_as :
          find_group (key_of cpu) groups ≡ none
          → try_emplace (key_of cpu) groups
            ≡ (u32 (length groups), (key_of cpu, u32 (length groups)) ∷ groups)
      new_as e = rw (e, try_emplace) refl

  pub add_cpus-Numbering :
      (cpus : List ℕ) (topo : Topology) (groups : Groups)
      → length groups + length cpus < 2 ^ 32
      → ((c : ℕ) → lists cpus c ≡ true → c < topo.nr_cpu_ids)
      → Numbering key_of topo groups
      → (t : Topology) × (all : Groups) × (add_cpus key_of cpus topo groups ≡ topology t)
        × Numbering key_of t all
        × (t.nr_llcs ≡ length all)
        × (t.nr_cpu_ids ≡ topo.nr_cpu_ids)
        × ((c : ℕ) → t.cpu_online c ≡ (topo.cpu_online c || lists cpus c))
  unfolding add_cpus
  add_cpus-Numbering [] topo groups few below h = (
    record topo { nr_llcs = u32 (length groups) },
    groups,
    refl,
    record { numbered = h.numbered; online = h.online; offline = h.offline; used = h.used },
    omega arith,
    refl,
    λ c. ground arith,
  )
  add_cpus-Numbering (cpu ∷ cpus) topo groups few below h =
      let (h', size) = add_cpu-Numbering cpu topo groups (omega arith) h in
      let (t, all, e, k, llcs, ids, online) =
        add_cpus-Numbering cpus (add_cpu key_of cpu topo groups).0
          (add_cpu key_of cpu topo groups).1 (omega (arith, size))
          (λ c listed. below c (ground (arith, listed))) h' in
      let inside : ltb cpu topo.nr_cpu_ids ≡ true =
        ground (arith, below cpu (rw (==-self cpu) refl)) in
      (t, all, rw (add_cpus, inside) e, k, llcs, ids, λ c. ground (arith, online c))
