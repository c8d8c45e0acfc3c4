-- ===== src/Dsq.antt =====
-- source/helpers.h: the dispatch queue of a tier and cpu, its length, and the time its head was served.
pub mod Ids
use lunar_sched.Base.{ℕ, ◌+◌, bit_or, ◌==◌, u32, update, if◌then◌else◌}
use lunar_sched.Base.Int.{pos_part}
use lunar_sched.Datatypes.{DispatchCtx}
use lunar_sched.Defines.{
  dsq_type_lc, dsq_type_interactive, dsq_type_normal, dsq_type_greedy, dsq_cpu_queue_base_lc,
  dsq_cpu_queue_base_interactive, dsq_cpu_queue_base_normal, dsq_cpu_queue_base_greedy,
}
use lunar_sched.Kernel.{Machine, World}

unfoldable pub get_cpu_dsq_from_type : ℕ → ℕ → ℕ
get_cpu_dsq_from_type tier cpu =
    if tier == dsq_type_lc
    then u32 (dsq_cpu_queue_base_lc + cpu)
    else if tier == dsq_type_interactive
    then u32 (dsq_cpu_queue_base_interactive + cpu)
    else if tier == dsq_type_normal
    then u32 (dsq_cpu_queue_base_normal + cpu)
    else u32 (dsq_cpu_queue_base_greedy + cpu)

-- SCX_DSQ_LOCAL and SCX_DSQ_LOCAL_ON, as in include/scx/enums_abi.autogen.h.
abbrev pub scx_dsq_local : ℕ
scx_dsq_local = 0x8000000000000002

abbrev pub scx_dsq_local_on : ℕ
scx_dsq_local_on = 0xc000000000000000

abbrev pub local_dsq : ℕ → ℕ
local_dsq cpu = bit_or scx_dsq_local_on cpu

-- A negative error of the kernel counts as an empty queue.
unfoldable pub dsq_queued : Machine → World → ℕ → ℕ
dsq_queued m w dsq = pos_part (m.queued_in w.trace dsq)

unfoldable pub stamp_tier_head_ts : ℕ → ℕ → DispatchCtx → DispatchCtx
stamp_tier_head_ts tier now d =
    if tier == dsq_type_interactive
    then record d { tier_head_ts = update d.tier_head_ts dsq_type_interactive now }
    else if tier == dsq_type_normal
    then record d { tier_head_ts = update d.tier_head_ts dsq_type_normal now }
    else if tier == dsq_type_greedy
    then record d { tier_head_ts = update d.tier_head_ts dsq_type_greedy now }
    else d
