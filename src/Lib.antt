-- ===== src/Lib.antt =====
-- Lunar is a sched_ext scheduler: a BPF program (source/lunar.bpf.c with its headers) whose callbacks the
-- Linux kernel calls, and a loader (source/main.cpp). It sorts tasks into four tiers, 1 (LC) to 4 (GREEDY),
-- by how much they run (duty) and how often they wake and are woken (crit score). Every cpu has one queue
-- per tier. A runnable task is queued on the best cpu of its LLC; a cpu without a task takes one out of its
-- own queues or those of others, better tiers first, and starved tiers in between.
--
-- The model follows the source function by function, under the source's names. A pointer that may be NULL
-- is an Option; a handler takes the world (the maps and the trace of the calls made) and returns the next.
--
--   Base        Boolean tests on ℕ, words of 32 and 64 bits with their wrap-around, integers, masks of bits
--   Text        the text functions of the C++ library that the loader calls; Text/Decimal prints and reads numbers
--   Topology    source/lunar_topology.h: Sysfs reads the files of a cpu, Cpulist the lists of cpus, Read numbers the
--               LLCs, Setup writes the object; Setup/Dispatched puts it together with the dispatch
--   ExitInfo    lunar_exit (source/lunar.bpf.c) and the macros of include/scx/user_exit_info.h and its two neighbours
--   Loader      source/main.cpp; Loader/Logic and Loader/Rounds hold the principle by which facts on it are proved
--   Compat      include/bpf_experimental.h: bpf_in_task, bpf_in_interrupt, with the wake boost that rests on them
--   Defines     source/defines.h
--   Datatypes   source/datatypes.h
--   Kernel      the functions of the kernel that the program calls, as a parameter
--   Duty        source/helpers.h: task_duty, duty_account
--   Crit        source/helpers.h: the crit score; include/scx/common.bpf.h: log2_u32, log2_u64
--   Tier        source/lunar.bpf.c: tier_from_crit to effective_tier
--   Dsq, Cpus   source/helpers.h: queue numbers and lengths, contexts, topology, realtime tasks
--   Boost       source/lunar.bpf.c: apply_wake_boost, record_waker; source/helpers.h: the two budgets
--   Placement   source/dispatches.h: cpu_load_ahead, pick_enqueue_cpu
--   Dispatch    source/dispatches.h: the rest; Dispatch/Order has dispatch_dsq_per_cpu, split into its
--               paragraphs, and Dispatch/Logic the principle by which facts on it are proved: a record of
--               rules, one for each kind of effect; Dispatch/Conserve has the search that finds a task, Dispatch/Starve
--               which tiers are late, Dispatch/Begun, Dispatch/Served, Dispatch/Override and Dispatch/Fair what is served
--               out of turn, Dispatch/Priority the order of the tiers, and Dispatch/Continue the cpu that has a previous
--               task
--   Callbacks   source/lunar.bpf.c: the callbacks and the tracepoint sched_switch; Callbacks/Resume follows a
--               preempted task from lunar_stopping to lunar_enqueue, Callbacks/Continue a task that keeps its cpu
--   Invariant   what all callbacks keep, of the contexts of tasks and of the realtime flags; Invariant/Calls has the
--               calls that each of them makes
--   System      the callbacks as the steps of a machine, in any order (lunar_ops); System/Calls what they call,
--               System/Woken a task from its insertion to the dispatch of its cpu
--   Examples    concrete inputs
--
-- The kernel is a record of oracles, each a function of the trace, so a theorem holds whatever the kernel
-- answers. The clock need not grow and queue lengths need not fit the insertions; a theorem that needs more
-- says so. A callback is one step: interleavings inside a callback are not modelled, nor is the memory
-- shared between cpus beyond the maps. The pick_scratch map is that of the cpu that runs the callback.
-- Loops run once per cpu or per tier, by structural recursion on their bound (nr_cpu_ids, 4), so no fuel
-- is needed. Words wrap around as the source's types do; the s64 overrun of a tier wraps with
-- its two subtractions, and the s64 duty is an integer, as it stays in its range.
--
-- The loader is a function of the trace of its calls and of the environment's answers (Os), so that it holds for a signal
-- at any moment. Its two loops, the rounds of waiting and the runs, take fuel; the calls after which the flag is set
-- bound both. The loop over a range of cpus recurs on the room left in the vector, which throws when it is full.
--
-- Not modelled: the copies of the headers and libraries of the scx project under include/, but for the logarithms, the
-- flags, the exit information, bpf_in_task and bpf_in_interrupt; the kernel with the wrappers of include/scx/compat.bpf.h,
-- scx_hotplug_seq and libbpf, which are parameters; exceptions of the C++ library outside parse_cpulist and
-- read_long_file (no memory, a directory that changes while it is read); SCX_ENUM_INIT, which is a single call of the
-- loader.
pub mod Base
pub mod Text
pub mod Topology
pub mod ExitInfo
pub mod Loader
pub mod Compat
pub mod Defines
pub mod Datatypes
pub mod Kernel
pub mod Duty
pub mod Crit
pub mod Tier
pub mod Dsq
pub mod Cpus
pub mod Boost
pub mod Placement
pub mod Dispatch
pub mod Callbacks
pub mod Invariant
pub mod System
mod Examples
