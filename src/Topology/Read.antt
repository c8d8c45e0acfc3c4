-- ===== src/Topology/Read.antt =====
-- source/lunar_topology.h: `struct Topology` and `read_topology`.
pub mod Key
pub mod Groups
pub mod Numbering
pub mod Llcs
use lunar_sched.Base.{
  ℕ, zero, suc, ◌+◌, Bool, true, false, Option, none, some, List, [], ◌∷◌, ◌++◌, ltb, max,
  if◌then◌else◌, u32, update, ◌>>=◌,
}
use lunar_sched.Base.Int.{ℤ, pos}
use lunar_sched.Text.{Bytes, bytes, length, same_text, to_string, to_string_ℤ}
use lunar_sched.Topology.Cpulist.{read_cpulist_file}
use lunar_sched.Topology.Sysfs.{Host, FsPath, ◌/p◌, read_long_file, cache_group_key}

-- The two vectors have `nr_cpu_ids` elements.
pub record Topology : Type 0 where
  pub nr_cpu_ids : ℕ
  pub nr_llcs : ℕ
  pub cpu_to_llc : ℕ → ℕ
  pub cpu_online : ℕ → Bool

-- What `read_topology` comes to; `out_of_bounds` is a write past the end of a vector, which is undefined.
pub data Reading : Type 0 where
  no_topology : Reading
  topology : Topology → Reading
  out_of_bounds : Reading

unfoldable pub largest : ℕ → List ℕ → ℕ
largest n [] = n
largest n (cpu ∷ cpus) = largest (max n cpu) cpus

-- `possible` when it could be read and is not empty.
abbrev pub id_source : Option (List ℕ) → List ℕ → List ℕ
id_source none online = online
id_source (some []) online = online
id_source (some (cpu ∷ cpus)) online = cpu ∷ cpus

unfoldable pub max_cpu_id : Option (List ℕ) → List ℕ → ℕ
max_cpu_id possible online = largest (largest 0 (id_source possible online)) online

abbrev pub value_or {ℓ} : {A : Type ℓ} → Option A → A → A
value_or none a = a
value_or (some b) a = b

abbrev pub package_of : Host → FsPath → ℤ
package_of h dir =
    value_or (read_long_file h (dir /p bytes "topology" /p bytes "physical_package_id")) (pos 0)

abbrev pub cache_key : Host → FsPath → Bytes
cache_key h dir = elim (cache_group_key h dir (pos 3)) [
  | some key ↦ key
  | none ↦ elim (cache_group_key h dir (pos 2)) [ some key ↦ key | none ↦ bytes "nocache" ]
]

abbrev pub join_key : ℤ → Bytes → Bytes
join_key id key = b'p' ∷ to_string_ℤ id ++ b':' ∷ key

abbrev pub cpu_dir : FsPath → ℕ → FsPath
cpu_dir cpu_root cpu = cpu_root /p (bytes "cpu" ++ to_string cpu)

unfoldable pub full_key : Host → FsPath → ℕ → Bytes
full_key h cpu_root cpu =
    join_key (package_of h (cpu_dir cpu_root cpu)) (cache_key h (cpu_dir cpu_root cpu))

-- `group_to_dense`, a map from keys; the order of its entries is not used.
abbrev pub Groups : Type 0
Groups = List (Bytes × ℕ)

unfoldable pub find_group : Bytes → Groups → Option ℕ
find_group key [] = none
find_group key ((other, id) ∷ groups) =
    if same_text key other then some id else find_group key groups

-- `try_emplace(key, size)`: the id of the key, and the map with it.
abbrev pub try_emplace : Bytes → Groups → ℕ × Groups
try_emplace key groups = elim (find_group key groups) [
  | some id ↦ (id, groups)
  | none ↦ (u32 (length groups), (key, u32 (length groups)) ∷ groups)
]

abbrev pub place : ℕ → Topology → ℕ × Groups → Topology × Groups
place cpu topo (llc, groups) = (
  record topo {
    cpu_online = update topo.cpu_online cpu true;
    cpu_to_llc = update topo.cpu_to_llc cpu llc;
  },
  groups,
)

abbrev pub add_cpu : (ℕ → Bytes) → ℕ → Topology → Groups → Topology × Groups
add_cpu key_of cpu topo groups = place cpu topo (try_emplace (key_of cpu) groups)

unfoldable pub add_cpus : (ℕ → Bytes) → List ℕ → Topology → Groups → Reading
add_cpus key_of [] topo groups = topology (record topo { nr_llcs = u32 (length groups) })
add_cpus key_of (cpu ∷ cpus) topo groups = elim (ltb cpu topo.nr_cpu_ids) [
  | false ↦ out_of_bounds
  | true ↦
      let added : Topology × Groups = add_cpu key_of cpu topo groups in
      add_cpus key_of cpus added.0 added.1
]

abbrev pub empty_topology : ℕ → Topology
empty_topology nr_cpu_ids = record {
  nr_cpu_ids = nr_cpu_ids;
  nr_llcs = 0;
  cpu_to_llc = λ _. 0;
  cpu_online = λ _. false;
}

-- The paragraphs after the lists have been read.
unfoldable pub number_llcs : (ℕ → Bytes) → Option (List ℕ) → List ℕ → Reading
number_llcs key_of possible online =
    add_cpus key_of online (empty_topology (u32 (max_cpu_id possible online + 1))) []

unfoldable pub read_topology : Host → FsPath → Reading
read_topology h cpu_root = elim (read_cpulist_file h (cpu_root /p bytes "online")) [
  | none ↦ no_topology
  | some [] ↦ no_topology
  | some (cpu ∷ cpus) ↦
      number_llcs (full_key h cpu_root) (read_cpulist_file h (cpu_root /p bytes "possible"))
        (cpu ∷ cpus)
]
