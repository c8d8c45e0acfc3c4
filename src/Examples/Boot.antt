-- ===== src/Examples/Boot.antt =====
-- The start of the scheduler: a sysfs with cpus 0, 1 and 3 of four online, where 0 and 1 share a cache, and a loader.
use lunar_sched.Base.{
  ◌+◌, ◌^◌, ◌-◌, ◌≡◌, refl, Bool, true, false, ◌&&◌, ◌||◌, Option, none, some, [], ◌∷◌, arith, leb,
  ltb, if◌then◌else◌,
}
use lunar_sched.Base.Int.{pos}
use lunar_sched.Datatypes.{Rodata}
use lunar_sched.Defines.{max_cpus, dsq_type_empty}
use lunar_sched.Text.{
  Bytes, bytes, same_text, get_lines, signed_number, skip_space, stoul, leading_number, cut_at,
}
use lunar_sched.Topology.Cpulist.{
  read_cpulist_file, push_range, parse_cpulist, parse_tokens, parse_token, push_one,
}
use lunar_sched.Topology.Cpulist.Print.{
  push_range-ends, cpus_from, one, span, print_items, cpus_of_all, parse_cpulist-print_items,
}
use lunar_sched.Topology.Read.{max_cpu_id, largest, number_llcs, out_of_bounds}
use lunar_sched.Topology.Read.Llcs.{number_llcs-overflow}
use lunar_sched.Topology.Setup.{Setup, too_many_cpus, setup_lunar_topology}
use lunar_sched.Topology.Setup.Written.{
  Lists, HoldsTopology, setup_lunar_topology-HoldsTopology, setup_lunar_topology_too_many,
}
use lunar_sched.Topology.Setup.Dispatched.{setup-dispatch_dsq_per_cpu}
use lunar_sched.Examples.Sample.{four_cpus, busy_world}
use lunar_sched.Kernel.{Kernel}
use lunar_sched.Dispatch.Conserve.{Gives}
use lunar_sched.Dispatch.Order.{dispatch_dsq_per_cpu}
use lunar_sched.Dsq.{dsq_queued, get_cpu_dsq_from_type}
use lunar_sched.Tier.Target.{IsTier}
use lunar_sched.Topology.Sysfs.{Host, FsPath, read_first_line, pop_blanks}

abbrev same_path : FsPath → FsPath → Bool
same_path [] [] = true
same_path [] (name ∷ q) = false
same_path (name ∷ p) [] = false
same_path (name ∷ p) (other ∷ q) = same_text name other && same_path p q

abbrev pub root : FsPath
root = bytes "cpu" ∷ []

abbrev shared_by_0_1 : FsPath → Bool
shared_by_0_1 dir =
    same_path dir (bytes "cpu" ∷ bytes "cpu0" ∷ bytes "cache" ∷ [])
    || same_path dir (bytes "cpu" ∷ bytes "cpu1" ∷ bytes "cache" ∷ [])

abbrev two_files : Bytes → Bytes → FsPath → Option Bytes
two_files online possible p =
    if same_path p (bytes "cpu" ∷ bytes "online" ∷ [])
    then some online
    else if same_path p (bytes "cpu" ∷ bytes "possible" ∷ [])
    then some possible
    else none

abbrev cache_files : FsPath → Option Bytes
cache_files (cpu ∷ name ∷ cache ∷ index ∷ file ∷ []) =
    if shared_by_0_1 (cpu ∷ name ∷ cache ∷ []) && same_text file (bytes "level")
    then some (bytes "3\n")
    else if shared_by_0_1 (cpu ∷ name ∷ cache ∷ []) && same_text file (bytes "shared_cpu_list")
    then some (bytes "0-1\n")
    else none
cache_files _ = none

abbrev host_of : Bytes → Bytes → Host
host_of online possible = record {
  file = λ p. elim (two_files online possible p) [
    | some contents ↦ some contents
    | none ↦ cache_files p
  ];
  exists = shared_by_0_1;
  entries = λ p. if shared_by_0_1 p then bytes "index3" ∷ [] else [];
  max_size = 1000;
}

abbrev pub small_host : Host
small_host = host_of (bytes "0-1,3\n") (bytes "0-3\n")

abbrev wide_host : Host
wide_host = host_of (bytes "0\n") (bytes "0-599\n")

abbrev pub fresh : Rodata
fresh = record { nr_llcs = 1; cpu_to_llc = λ c. 0; cpu_online = λ c. false }

pub small-Lists : Lists small_host root (0 ∷ 1 ∷ 3 ∷ []) 4
unfolding read_cpulist_file read_first_line pop_blanks get_lines parse_cpulist parse_tokens
    parse_token push_range push_one cut_at stoul signed_number skip_space leading_number max_cpu_id
    largest
small-Lists = record {
  first = 0;
  others = 1 ∷ 3 ∷ [];
  some_online = refl;
  read_online = refl;
  highest = refl;
  few = omega arith;
}

wide-Lists : Lists wide_host root (0 ∷ []) 600
unfolding read_cpulist_file read_first_line pop_blanks get_lines parse_cpulist parse_tokens
    parse_token push_range push_one cut_at stoul signed_number skip_space leading_number max_cpu_id
    largest
wide-Lists = record {
  first = 0;
  others = [];
  some_online = refl;
  read_online = refl;
  highest = refl;
  few = omega arith;
}

setup_lunar_topology-HoldsTopology_example :
    (s : Setup) × (setup_lunar_topology small_host root fresh ≡ some s)
    × (s.done ≡ true)
    × HoldsTopology small_host root (0 ∷ 1 ∷ 3 ∷ []) 4 fresh s.rodata
setup_lunar_topology-HoldsTopology_example =
    setup_lunar_topology-HoldsTopology small_host root (0 ∷ 1 ∷ 3 ∷ []) 4 small-Lists fresh
      (omega arith)

setup_lunar_topology_too_many_example :
    setup_lunar_topology wide_host root fresh
    ≡ some (record { done = false; rodata = fresh; printed = too_many_cpus 600 max_cpus ∷ [] })
setup_lunar_topology_too_many_example =
    setup_lunar_topology_too_many wide_host root (0 ∷ []) 600 wide-Lists fresh (omega arith)
      (omega arith)

pub small_setup :
    (s : Setup) × (setup_lunar_topology small_host root fresh ≡ some s)
    × (s.done ≡ true)
    × HoldsTopology small_host root (0 ∷ 1 ∷ 3 ∷ []) 4 fresh s.rodata
small_setup =
    setup_lunar_topology-HoldsTopology small_host root (0 ∷ 1 ∷ 3 ∷ []) 4 small-Lists fresh
      (omega arith)

abbrev giving : Kernel
giving = record four_cpus { queued_in = λ t dsq. pos 1; moves = λ t dsq. true }

greedy_queue :
    Gives
      (record { kernel = giving; rodata = small_setup.0.rodata })
      (get_cpu_dsq_from_type 4 3)
      busy_world.trace
unfolding dsq_queued
greedy_queue = record { waits = λ w q. refl; moves = λ w q. refl }

setup-dispatch_dsq_per_cpu_example :
    IsTier
      (dispatch_dsq_per_cpu
        (record { kernel = giving; rodata = small_setup.0.rodata })
        0
        dsq_type_empty
        busy_world).0
setup-dispatch_dsq_per_cpu_example =
    setup-dispatch_dsq_per_cpu small_host root (0 ∷ 1 ∷ 3 ∷ []) (4, small-Lists) fresh small_setup.0
      giving 0 3 4 busy_world small_setup.1 refl (omega arith) refl refl (omega arith) greedy_queue

parse_cpulist-print_items_example :
    parse_cpulist 1000 (print_items (span 0 3 ∷ one 8 ∷ span 10 11 ∷ []))
    ≡ some (cpus_of_all (span 0 3 ∷ one 8 ∷ span 10 11 ∷ []))
parse_cpulist-print_items_example =
    parse_cpulist-print_items (span 0 3 ∷ one 8 ∷ span 10 11 ∷ []) 1000
      ((omega arith, omega arith), (omega arith, ((omega arith, omega arith), tt))) (omega arith)

push_range-ends_example :
    push_range 5 2 4
    ≡ (if leb (4 + 1) (5 + 2) && ltb 4 (2 ^ 64 - 1) then some (cpus_from 2 (4 + 1 - 2)) else none)
push_range-ends_example = push_range-ends 5 2 4 (omega arith) (omega arith)

number_llcs-overflow_example : number_llcs (λ c. []) none (4_294_967_295 ∷ []) ≡ out_of_bounds
unfolding max_cpu_id largest
number_llcs-overflow_example = number_llcs-overflow (λ c. []) none 4_294_967_295 [] refl
