-- ===== src/Dispatch/Kick.antt =====
-- source/dispatches.h: an idle cpu is woken for a task that waits on a cpu taken by a realtime task.
use lunar_sched.Base.{ℕ, zero, suc, ◌+◌, ◌-◌, none, some, ltb, if◌then◌else◌}
use lunar_sched.Base.Int.{ℤ, pos, negsuc}
use lunar_sched.Datatypes.{Task}
use lunar_sched.Defines.{dsq_type_lc, dsq_type_greedy}
use lunar_sched.Dsq.{get_cpu_dsq_from_type}
use lunar_sched.Kernel.{Machine, World, pick_idle, kick_cpu, emit}

-- SCX_KICK_IDLE, as in include/scx/enums_abi.autogen.h.
abbrev pub scx_kick_idle : ℕ
scx_kick_idle = 1

unfoldable pub kick_found : World → ℤ → World
kick_found w (pos idle) = emit (kick_cpu idle scx_kick_idle) w
kick_found w (negsuc _) = w

unfoldable pub kick_for : Machine → World → Task → World
kick_for m w p =
    let idle : ℤ = m.idle_for w.trace p.address in
    kick_found (emit (pick_idle p.address idle) w) idle

-- Only the head of each queue is looked at. `rounds` tiers are left, from `tier` on.
unfoldable pub kick_tiers : Machine → ℕ → ℕ → ℕ → World → World
kick_tiers m cpu zero tier w = w
kick_tiers m cpu (suc rounds) tier w =
    let rest = kick_tiers m cpu rounds (tier + 1) w in
    elim (m.head_of w.trace (get_cpu_dsq_from_type tier cpu)) [
      | none ↦ rest
      | some p ↦ if ltb 1 p.nr_cpus_allowed then kick_for m w p else rest
    ]

-- The tiers from LC to GREEDY.
unfoldable pub kick_idle_for_waiting : Machine → ℕ → World → World
kick_idle_for_waiting m cpu w = kick_tiers m cpu (dsq_type_greedy + 1 - dsq_type_lc) dsq_type_lc w
