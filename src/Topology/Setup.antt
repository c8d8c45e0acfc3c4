-- ===== src/Topology/Setup.antt =====
-- source/lunar_topology.h: `setup_lunar_topology`, which writes the topology into the BPF object.
pub mod Written
pub mod Dispatched
use lunar_sched.Base.{
  ℕ, zero, suc, ◌+◌, Bool, true, false, Option, none, some, List, [], ◌∷◌, ◌++◌, ltb, ◌==◌,
  if◌then◌else◌, u32, update,
}
use lunar_sched.Datatypes.{Rodata}
use lunar_sched.Defines.{max_cpus}
use lunar_sched.Topology.Read.{
  Topology, Reading, no_topology, topology, out_of_bounds, read_topology,
}
use lunar_sched.Topology.Sysfs.{Host, FsPath}

-- What is printed.
pub data Message : Type 0 where
  online_unreadable : Message
  too_many_cpus : (nr_cpu_ids limit : ℕ) → Message
  zero_llcs : Message
  found_llcs : ℕ → Message
  summary : (nr_cpu_ids nr_online nr_llcs : ℕ) → Message
  cpu_line : (cpu llc : ℕ) → Message
  offline_line : ℕ → Message

-- The result, the object and what was printed.
pub record Setup : Type 0 where
  pub done : Bool
  pub rodata : Rodata
  pub printed : List Message

abbrev pub write_cpu : Topology → ℕ → Rodata → Rodata
write_cpu t cpu r = record r {
  cpu_to_llc = update r.cpu_to_llc cpu (t.cpu_to_llc cpu);
  cpu_online = update r.cpu_online cpu (t.cpu_online cpu);
}

-- The loops go from cpu 0 to `n - 1`.
unfoldable pub write_cpus : Topology → ℕ → Rodata → Rodata
write_cpus t zero r = r
write_cpus t (suc n) r = write_cpu t n (write_cpus t n r)

unfoldable pub count_online : Topology → ℕ → ℕ
count_online t zero = 0
count_online t (suc n) = if t.cpu_online n then u32 (count_online t n + 1) else count_online t n

unfoldable pub cpu_lines : Topology → ℕ → List Message
cpu_lines t zero = []
cpu_lines t (suc n) =
    cpu_lines t n ++ (if t.cpu_online n then cpu_line n (t.cpu_to_llc n) else offline_line n) ∷ []

unfoldable pub write_topology : Topology → Rodata → Setup
write_topology t r =
    if ltb max_cpus t.nr_cpu_ids
    then record { done = false; rodata = r; printed = too_many_cpus t.nr_cpu_ids max_cpus ∷ [] }
    else if t.nr_llcs == 0
    then record { done = false; rodata = r; printed = zero_llcs ∷ [] }
    else record {
      done = true;
      rodata = write_cpus t t.nr_cpu_ids (record r { nr_llcs = t.nr_llcs });
      printed =
          found_llcs t.nr_llcs
          ∷ summary t.nr_cpu_ids (count_online t t.nr_cpu_ids) t.nr_llcs
          ∷ cpu_lines t t.nr_cpu_ids;
    }

-- `none` is undefined behaviour in `read_topology`.
unfoldable pub setup_lunar_topology : Host → FsPath → Rodata → Option Setup
setup_lunar_topology h cpu_root r = elim (read_topology h cpu_root) [
  | no_topology ↦ some (record { done = false; rodata = r; printed = online_unreadable ∷ [] })
  | out_of_bounds ↦ none
  | topology t ↦ some (write_topology t r)
]
