-- ===== src/Dispatch.antt =====
-- source/dispatches.h, the dispatch side: taking tasks from other cpus, starvation, and the order in
-- which the tiers are served.
pub mod Starve
pub mod Order
pub mod Kick
pub mod Logic
pub mod Accounting
pub mod Frame
pub mod Conserve
pub mod Begun
pub mod Served
pub mod Override
pub mod Priority
pub mod Continue
pub mod Fair
use lunar_sched.Base.{
  ℕ, zero, suc, ◌+◌, ◌%◌, Bool, true, false, not, Option, none, some, ◌&&◌, ◌||◌, ltb, leb, ◌==◌,
  sub64, u32, if◌then◌else◌,
}
use lunar_sched.Base.Int.{ℤ, pos, ltb_ℤ, signed64}
use lunar_sched.Cpus.{get_dispatch_ctx, modify_cpu, cpu_llc_id, cpu_is_online, cpu_taken_by_rt}
use lunar_sched.Datatypes.{Task, DispatchCtx}
use lunar_sched.Defines.{
  dsq_type_lc, dsq_type_interactive, dsq_type_normal, dsq_type_greedy, dsq_type_empty,
  starve_budget_interactive_ns, starve_budget_normal_ns, starve_budget_greedy_ns,
  starve_override_cooldown_ns, starve_override_budget_ns,
}
use lunar_sched.Dsq.{get_cpu_dsq_from_type, dsq_queued, stamp_tier_head_ts}
use lunar_sched.Kernel.{
  Machine, World, Event, move_to_local, draw_random, read_clock, pick_idle, kick_cpu, emit,
}

-- A step that may take a task, and a part of the dispatch that returns a tier.
abbrev pub Test : Type 0
Test = World → Bool × World

abbrev pub Action : Type 0
Action = World → ℕ × World

-- `if (test()) return tier;` before the rest.
unfoldable pub return_if : Test → ℕ → Action → Action
return_if test tier rest w = let (hit, w') = test w in if hit then (tier, w') else rest w'

-- `if (b) return tier;`, where `b` has no effect.
unfoldable pub return_when : Bool → ℕ → Action → Action
return_when b tier rest w = if b then (tier, w) else rest w

-- `scx_bpf_dsq_move_to_local(dsq, 0)`, and what follows a move.
unfoldable pub move_then : Machine → ℕ → (World → World) → Test
move_then m dsq after w =
    let moved : Bool = m.moves w.trace dsq in
    let w' : World = emit (move_to_local dsq moved) w in
    if moved then (true, after w') else (false, w')

-- `dsq_queued(dsq) && scx_bpf_dsq_move_to_local(dsq, 0)`, and what follows a move.
unfoldable pub take_queued : Machine → ℕ → (World → World) → Test
take_queued m dsq after w = if dsq_queued m w dsq == 0 then (false, w) else move_then m dsq after w

pub stamp : ℕ → ℕ → ℕ → World → World
stamp tier cpu now = modify_cpu cpu (stamp_tier_head_ts tier now)

-- The loop of the searches: `rounds` cpus from the `i`-th after `start` on, until one gives a task.
unfoldable pub sweep : ℕ → ℕ → (ℕ → Test) → ℕ → ℕ → Test
sweep n start visit zero i w = (false, w)
sweep n start visit (suc rounds) i w =
    let (hit, w') = visit (u32 (start + i) % n) w in
    elim hit [ true ↦ (true, w') | false ↦ sweep n start visit rounds (i + 1) w' ]

-- All cpus, from a random one on.
unfoldable pub search_cpus : Machine → (ℕ → Test) → Test
search_cpus m visit w =
    let drawn : ℕ = m.random w.trace in
    sweep m.nr_cpu_ids (drawn % m.nr_cpu_ids) visit m.nr_cpu_ids 0 (emit (draw_random drawn) w)

pub other_cpu : Machine → ℕ → Bool → ℕ → Bool
other_cpu m cpu same_llc other =
    not (other == cpu || not (cpu_is_online m other))
    && (if same_llc
        then cpu_llc_id m other == cpu_llc_id m cpu
        else not (cpu_llc_id m other == cpu_llc_id m cpu))

pub steal_from : Machine → ℕ → ℕ → Bool → ℕ → ℕ → Test
steal_from m tier cpu same_llc now other w =
    if other_cpu m cpu same_llc other
    then take_queued m (get_cpu_dsq_from_type tier other) (stamp tier other now) w
    else (false, w)

pub try_acquire_task_from_other_cpu : Machine → ℕ → ℕ → Bool → ℕ → Action
try_acquire_task_from_other_cpu m tier cpu same_llc now w =
    let (hit, w') = search_cpus m (steal_from m tier cpu same_llc now) w in
    if hit then (tier, w') else (dsq_type_empty, w')

unfoldable pub rt_victim : Option DispatchCtx → Bool
rt_victim none = false
rt_victim (some d) = d.rt_busy

unfoldable pub rescue_from : Machine → ℕ → ℕ → ℕ → ℕ → Test
rescue_from m tier cpu now other w =
    if other == cpu || not (cpu_is_online m other) || not (cpu_llc_id m other == cpu_llc_id m cpu)
    then (false, w)
    else if not (rt_victim (get_dispatch_ctx w other))
    then (false, w)
    else if dsq_queued m w (get_cpu_dsq_from_type tier other) == 0
        || not (cpu_taken_by_rt m w other)
    then (false, w)
    else move_then m (get_cpu_dsq_from_type tier other) (stamp tier other now) w

unfoldable pub try_acquire_from_rt_cpu : Machine → ℕ → ℕ → ℕ → Test
try_acquire_from_rt_cpu m tier cpu now w =
    if w.nr_rt_busy == 0 then (false, w) else search_cpus m (rescue_from m tier cpu now) w

pub take_from_local_tier : Machine → ℕ → ℕ → ℕ → Test
take_from_local_tier m tier cpu now =
    take_queued m (get_cpu_dsq_from_type tier cpu) (stamp tier cpu now)

pub take_from_other_tier : Machine → ℕ → ℕ → ℕ → Bool → Test
take_from_other_tier m tier cpu now this_llc w =
    let (taken, w') = try_acquire_task_from_other_cpu m tier cpu this_llc now w in
    (not (taken == dsq_type_empty), w')

pub tier_overrun : Machine → World → DispatchCtx → ℕ → ℕ → ℕ → ℕ → ℤ
tier_overrun m w d tier cpu now budget =
    if dsq_queued m w (get_cpu_dsq_from_type tier cpu) == 0
    then pos 0
    else signed64 (sub64 (sub64 now (d.tier_head_ts tier)) budget)

-- The worst tier and its overrun so far, after a look at one more tier.
worse : ℤ → ℕ → ℤ × ℕ → ℤ × ℕ
worse overrun tier (worst_overrun, worst_type) =
    if ltb_ℤ worst_overrun overrun then (overrun, tier) else (worst_overrun, worst_type)

pub most_starved_tier : Machine → World → DispatchCtx → ℕ → ℕ → ℕ
most_starved_tier m w d cpu now =
    let over : ℕ → ℕ → ℤ = λ tier budget. tier_overrun m w d tier cpu now budget in
    let i : ℤ = over dsq_type_interactive starve_budget_interactive_ns in
    let n : ℤ = over dsq_type_normal starve_budget_normal_ns in
    let g : ℤ = over dsq_type_greedy starve_budget_greedy_ns in
    if ltb (sub64 now d.last_override_ts) starve_override_cooldown_ns
    then dsq_type_empty
    else (worse g dsq_type_greedy
        (worse n dsq_type_normal (worse i dsq_type_interactive (pos 0, dsq_type_empty)))).1
