-- ===== src/Topology/Setup/Dispatched.antt =====
-- The scheduler with the topology that the loader wrote.
use lunar_sched.Base.{
  ℕ, ◌%◌, ◌≤◌, ◌≡◌, ◌≢◌, ◌∙◌, sym, ap, inl, inr, true, subst, some, List, arith, Bool-cases, ◌==◌,
  ==→eq,
}
use lunar_sched.Cpus.{cpu_llc_id, cpu_is_online}
use lunar_sched.Datatypes.{Rodata}
use lunar_sched.Defines.{max_cpus, dsq_type_empty}
use lunar_sched.Dispatch.Conserve.{Gives, Reaches}
use lunar_sched.Dispatch.Conserve.Whole.{dispatch_dsq_per_cpu-IsTier}
use lunar_sched.Dispatch.Order.{dispatch_dsq_per_cpu}
use lunar_sched.Dsq.{get_cpu_dsq_from_type}
use lunar_sched.Kernel.{Machine, Kernel, World}
use lunar_sched.Tier.Target.{IsTier}
use lunar_sched.Topology.Read.Numbering.{lists}
use lunar_sched.Topology.Setup.{Setup, setup_lunar_topology}
use lunar_sched.Topology.Setup.Written.{Lists, HoldsTopology, setup_lunar_topology-HoldsTopology}
use mathlib.Core.Option.{some-injective}
use lunar_sched.Topology.Sysfs.{Host, FsPath}

module _ (h : Host) (cpu_root : FsPath) (online : List ℕ) (nr : ℕ) (before : Rodata)
    (m : Machine) where
  -- On a machine with the numbers of cpus that were read, an online cpu reaches every other online cpu.
  HoldsTopology-Reaches :
      (cpu c : ℕ)
      → HoldsTopology h cpu_root online nr before m.rodata
      → nr ≤ max_cpus
      → m.nr_cpu_ids ≡ nr
      → lists online cpu ≡ true
      → lists online c ≡ true
      → c ≢ cpu
      → Reaches m cpu c
  unfolding cpu_is_online cpu_llc_id
  HoldsTopology-Reaches cpu c k fits ids on_cpu on_c differs =
      let (inside_cpu, llc_cpu) = k.below cpu on_cpu in
      let (inside, llc) = k.below c on_c in
      let own : cpu % max_cpus ≡ cpu = omega arith in
      let index : c % max_cpus ≡ c = omega arith in
      record {
        below = omega (arith, ids, inside);
        few = omega (arith, ids);
        other = differs;
        online = ap m.cpu_online index ∙ k.online_as c inside ∙ on_c;
        llc = ground (arith, llc, llc_cpu, ap m.cpu_to_llc index, ap m.cpu_to_llc own);
      }

-- The object that the setup returns holds the topology.
setup-HoldsTopology :
    (h : Host) (cpu_root : FsPath) (online : List ℕ) (nr : ℕ) (l : Lists h cpu_root online nr)
    (before : Rodata) (s : Setup)
    → nr ≤ max_cpus
    → setup_lunar_topology h cpu_root before ≡ some s
    → HoldsTopology h cpu_root online nr before s.rodata
setup-HoldsTopology h cpu_root online nr l before s fits e =
    let (s', e', done, k) = setup_lunar_topology-HoldsTopology h cpu_root online nr l before fits in
    subst (λ (a : Setup). HoldsTopology h cpu_root online nr before a.rodata)
      (some-injective _ _ (sym e' ∙ e)) k

-- The scheduler with the object of the setup, on a kernel with the numbers of cpus that sysfs lists, at most 512:
-- whenever a tier's queue of an online cpu gives a task for as long as the dispatch has taken none, every online cpu
-- that has no previous task to run takes a task.
pub setup-dispatch_dsq_per_cpu :
    (h : Host) (cpu_root : FsPath) (online : List ℕ) (l : (nr : ℕ) × Lists h cpu_root online nr)
    (before : Rodata) (s : Setup) (k : Kernel) (cpu c tier : ℕ) (w : World)
    → setup_lunar_topology h cpu_root before ≡ some s
    → k.nr_cpu_ids ≡ l.0
    → k.nr_cpu_ids ≤ max_cpus
    → lists online cpu ≡ true
    → lists online c ≡ true
    → IsTier tier
    → Gives (record { kernel = k; rodata = s.rodata }) (get_cpu_dsq_from_type tier c) w.trace
    → IsTier
        (dispatch_dsq_per_cpu (record { kernel = k; rodata = s.rodata }) cpu dsq_type_empty w).0
setup-dispatch_dsq_per_cpu h cpu_root online (nr, l) before s k cpu c tier w e ids few on_cpu on_c t
      g =
    let fits : nr ≤ max_cpus = omega arith in
    let holds = setup-HoldsTopology h cpu_root online nr l before s fits e in
    dispatch_dsq_per_cpu-IsTier m cpu tier c w t g (elim (Bool-cases (c == cpu)) [
      | inl same ↦ inl (==→eq c cpu same)
      | inr other ↦ inr (
          HoldsTopology-Reaches h cpu_root online nr before m cpu c holds fits ids on_cpu on_c
            (ground (arith, other)))
    ])
  where
    m : Machine
    m = record { kernel = k; rodata = s.rodata }
