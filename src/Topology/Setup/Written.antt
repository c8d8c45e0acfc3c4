-- ===== src/Topology/Setup/Written.antt =====
-- What the BPF object holds after `setup_lunar_topology`.
use lunar_sched.Base.{
  ℕ, zero, suc, ◌+◌, ◌^◌, ◌≤◌, ◌<◌, ◌≡◌, refl, ◌∙◌, sym, ap, subst, inl, inr, ◌↔◌, true, false,
  some, List, [], ◌∷◌, arith, ltb, ◌==◌, ==→eq, Bool-cases, if◌then◌else◌,
}
use lunar_sched.Datatypes.{Rodata}
use lunar_sched.Defines.{max_cpus}
use lunar_sched.Text.{bytes, length}
use lunar_sched.Topology.Cpulist.{read_cpulist_file}
use lunar_sched.Topology.Read.{
  Topology, topology, max_cpu_id, read_topology, full_key, package_of, cache_key, cpu_dir,
  number_llcs,
}
use lunar_sched.Topology.Read.Key.{full_key_same}
use lunar_sched.Topology.Read.Llcs.{NumbersLlcs, number_llcs-NumbersLlcs}
use lunar_sched.Topology.Read.Numbering.{lists}
use lunar_sched.Topology.Setup.{
  Setup, too_many_cpus, write_cpus, write_topology, setup_lunar_topology,
}
use lunar_sched.Topology.Sysfs.{Host, FsPath, ◌/p◌}

-- The lists that sysfs gives: the cpus online, at least one, and the possible ones; all numbers of cpus are below
-- `nr`, which one more than the highest.
pub record Lists (h : Host) (cpu_root : FsPath) (online : List ℕ) (nr : ℕ) : Type 0 where
  pub first : ℕ
  pub others : List ℕ
  pub some_online : online ≡ first ∷ others
  pub read_online : read_cpulist_file h (cpu_root /p bytes "online") ≡ some online
  pub highest : max_cpu_id (read_cpulist_file h (cpu_root /p bytes "possible")) online + 1 ≡ nr
  pub few : length online < 2 ^ 32

module _ (h : Host) (cpu_root : FsPath) (online : List ℕ) (nr : ℕ)
    (l : Lists h cpu_root online nr) where
  -- A topology is read whenever some cpu is online and no cpu has the largest number of 32 bits.
  pub read_topology-NumbersLlcs :
      nr < 2 ^ 32
      → (t : Topology) × (read_topology h cpu_root ≡ topology t)
        × (t.nr_cpu_ids ≡ nr)
        × NumbersLlcs (full_key h cpu_root) online t
  unfolding read_topology
  read_topology-NumbersLlcs small =
      let possible = read_cpulist_file h (cpu_root /p bytes "possible") in
      let (t, e, size, k) =
        number_llcs-NumbersLlcs (full_key h cpu_root) possible online (omega (arith, l.highest))
          l.few in
      (t, reads ∙ e, size ∙ l.highest, k)
    where
      reads :
          read_topology h cpu_root
          ≡ number_llcs
              (full_key h cpu_root)
              (read_cpulist_file h (cpu_root /p bytes "possible"))
              online
      reads = rw (l.read_online, read_topology, l.some_online) refl

-- The loop writes the entries below `n` and leaves the others.
record IsWritten (t : Topology) (n : ℕ) (before after : Rodata) : Type 0 where
  llc : (c : ℕ) → after.cpu_to_llc c ≡ (if ltb c n then t.cpu_to_llc c else before.cpu_to_llc c)
  online : (c : ℕ) → after.cpu_online c ≡ (if ltb c n then t.cpu_online c else before.cpu_online c)
  llcs : after.nr_llcs ≡ before.nr_llcs

write_cpus-IsWritten : (t : Topology) (n : ℕ) (r : Rodata) → IsWritten t n r (write_cpus t n r)
unfolding write_cpus
write_cpus-IsWritten t zero r = record {
  llc = λ c. ground arith;
  online = λ c. ground arith;
  llcs = refl;
}
write_cpus-IsWritten t (suc n) r =
    let h = write_cpus-IsWritten t n r in
    record {
      llc = λ c. elim (Bool-cases (n == c)) [
        | inl same ↦ ground (arith, same, ap t.cpu_to_llc (==→eq n c same))
        | inr other ↦ ground (arith, other, h.llc c)
      ];
      online = λ c. elim (Bool-cases (n == c)) [
        | inl same ↦ ground (arith, same, ap t.cpu_online (==→eq n c same))
        | inr other ↦ ground (arith, other, h.online c)
      ];
      llcs = h.llcs;
    }

-- The object that a successful setup leaves, for the lists that sysfs gives.
pub record HoldsTopology (h : Host) (cpu_root : FsPath) (online : List ℕ) (nr : ℕ)
    (before after : Rodata) : Type 0 where
  pub online_as : (c : ℕ) → c < nr → after.cpu_online c ≡ lists online c
  pub untouched :
      (c : ℕ)
      → nr ≤ c
      → (after.cpu_online c ≡ before.cpu_online c) × (after.cpu_to_llc c ≡ before.cpu_to_llc c)
  pub below : (c : ℕ) → lists online c ≡ true → (c < nr) × (after.cpu_to_llc c < after.nr_llcs)
  pub same_llc :
      (a b : ℕ)
      → lists online a ≡ true
      → lists online b ≡ true
      → (after.cpu_to_llc a ≡ after.cpu_to_llc b) ↔ (
          (package_of h (cpu_dir cpu_root a) ≡ package_of h (cpu_dir cpu_root b))
          × (cache_key h (cpu_dir cpu_root a) ≡ cache_key h (cpu_dir cpu_root b)))
  pub used :
      (n : ℕ) → n < after.nr_llcs → (c : ℕ) × (lists online c ≡ true) × (after.cpu_to_llc c ≡ n)

write_topology_done :
    (t : Topology) (r : Rodata)
    → t.nr_cpu_ids ≤ max_cpus
    → 0 < t.nr_llcs
    → ((write_topology t r).done ≡ true)
      × ((write_topology t r).rodata ≡ write_cpus t t.nr_cpu_ids (record r { nr_llcs = t.nr_llcs }))
unfolding write_topology
write_topology_done t r fits some_llc =
    let few : ltb max_cpus t.nr_cpu_ids ≡ false = ground arith in
    let llcs : (t.nr_llcs == 0) ≡ false = ground arith in (rw (few, llcs) refl, rw (few, llcs) refl)

write_topology_refused :
    (t : Topology) (r : Rodata)
    → ltb max_cpus t.nr_cpu_ids ≡ true
    → write_topology t r
      ≡ record { done = false; rodata = r; printed = too_many_cpus t.nr_cpu_ids max_cpus ∷ [] }
unfolding write_topology
write_topology_refused t r over = rw over refl

setup_after :
    (h : Host) (cpu_root : FsPath) (r : Rodata) (t : Topology)
    → read_topology h cpu_root ≡ topology t
    → setup_lunar_topology h cpu_root r ≡ some (write_topology t r)
unfolding setup_lunar_topology
setup_after h cpu_root r t e = rw (e, setup_lunar_topology) refl

module _ (h : Host) (cpu_root : FsPath) (online : List ℕ) (nr : ℕ) (l : Lists h cpu_root online nr)
    (r : Rodata) where
  IsWritten-HoldsTopology :
      (t : Topology) (after : Rodata)
      → t.nr_cpu_ids ≡ nr
      → NumbersLlcs (full_key h cpu_root) online t
      → IsWritten t t.nr_cpu_ids (record r { nr_llcs = t.nr_llcs }) after
      → HoldsTopology h cpu_root online nr r after
  IsWritten-HoldsTopology t after size k w = record {
    online_as = λ c inside. ground (arith, w.online c, k.online c, inside, size);
    untouched = λ c outside.
        (ground (arith, w.online c, outside, size), ground (arith, w.llc c, outside, size));
    below =
        λ c on. (omega (arith, k.below c on, size), omega (arith, k.below c on, w.llcs, llc c on));
    same_llc = λ a b on_a on_b.
        let (to, from) = k.same_llc a b on_a on_b in
        let (to', from') = full_key_same h cpu_root a b in
        (
          λ same. to' (to (sym (llc a on_a) ∙ same ∙ llc b on_b)),
          λ same. llc a on_a ∙ from (from' same) ∙ sym (llc b on_b),
        );
    used = λ n under. let (c, on, at) = k.used n (omega (arith, w.llcs)) in (c, on, llc c on ∙ at);
  }
    where
      llc : (c : ℕ) → lists online c ≡ true → after.cpu_to_llc c ≡ t.cpu_to_llc c
      llc c on = ground (arith, w.llc c, k.below c on)

  -- With at most 512 numbers of cpus the setup succeeds. The object then holds which cpus are online; two of
  -- these have the same LLC exactly when they have the same package and cache, and the LLCs are numbered from 0
  -- to `nr_llcs - 1`.
  pub setup_lunar_topology-HoldsTopology :
      nr ≤ max_cpus
      → (s : Setup) × (setup_lunar_topology h cpu_root r ≡ some s)
        × (s.done ≡ true)
        × HoldsTopology h cpu_root online nr r s.rodata
  setup_lunar_topology-HoldsTopology small =
      let (t, e, size, k) = read_topology-NumbersLlcs h cpu_root online nr l (omega arith) in
      let first_on : lists online l.first ≡ true = rw l.some_online (ground arith) in
      let (done, written) =
        write_topology_done t r (omega (arith, size)) (omega (arith, k.below l.first first_on)) in
      (
        write_topology t r,
        setup_after h cpu_root r t e,
        done,
        IsWritten-HoldsTopology t _ size k (
            subst (IsWritten t t.nr_cpu_ids _) (sym written)
              (write_cpus-IsWritten t t.nr_cpu_ids _)),
      )

  -- With more than 512 numbers of cpus, but not the largest number of 32 bits among them, the setup fails, says so
  -- and leaves the object as it was.
  pub setup_lunar_topology_too_many :
      max_cpus < nr
      → nr < 2 ^ 32
      → setup_lunar_topology h cpu_root r
        ≡ some (record { done = false; rodata = r; printed = too_many_cpus nr max_cpus ∷ [] })
  setup_lunar_topology_too_many many small =
      let (t, e, size, k) = read_topology-NumbersLlcs h cpu_root online nr l small in
      let over : ltb max_cpus t.nr_cpu_ids ≡ true = ground (arith, size) in
      setup_after h cpu_root r t e ∙ ap some (write_topology_refused t r over ∙ ap refused size)
    where
      refused : ℕ → Setup
      refused ids = record { done = false; rodata = r; printed = too_many_cpus ids max_cpus ∷ [] }
