-- ===== src/Placement.antt =====
-- source/dispatches.h, the enqueue side: the load ahead of a task on a cpu, and the cpu it is queued on.
pub mod Pick
pub mod Least
use lunar_sched.Base.{
  ℕ, zero, suc, ◌+◌, ◌%◌, Bool, true, false, not, Option, none, some, ◌&&◌, ◌||◌, ltb, leb, ◌==◌,
  add64, sub64, u32, if◌then◌else◌,
}
use lunar_sched.Base.Int.{ℤ, pos, negsuc}
use lunar_sched.Cpus.{get_dispatch_ctx, cpu_llc_id, cpu_is_online, cpu_taken_by_rt}
use lunar_sched.Datatypes.{Task, TaskCtx, DispatchCtx, PickScratch}
use lunar_sched.Defines.{
  balance_interval_ns, balance_samples, dsq_type_lc, dsq_type_interactive, dsq_type_normal,
  dsq_type_greedy, rt_cpu_load,
}
use lunar_sched.Dsq.{get_cpu_dsq_from_type, local_dsq, dsq_queued}
use lunar_sched.Kernel.{
  Machine, World, Event, clear_idle, pick_idle, draw_random, emit, put_scratch,
}

unfoldable pub runs_ahead : Option DispatchCtx → ℕ → Bool
runs_ahead none tier = false
runs_ahead (some d) tier = leb d.current_task_dsq_type tier

unfoldable pub cpu_load_ahead : Machine → World → ℕ → ℕ → ℕ
cpu_load_ahead m w cpu tier =
    let load : ℕ =
      if runs_ahead (get_dispatch_ctx w cpu) tier
      then 1
      else if cpu_taken_by_rt m w cpu
      then rt_cpu_load
      else 0 in
    let load : ℕ = add64 load (dsq_queued m w (local_dsq cpu)) in
    let load : ℕ = add64 load (dsq_queued m w (get_cpu_dsq_from_type dsq_type_lc cpu)) in
    let load : ℕ =
      if leb dsq_type_interactive tier
      then add64 load (dsq_queued m w (get_cpu_dsq_from_type dsq_type_interactive cpu))
      else load in
    let load : ℕ =
      if leb dsq_type_normal tier
      then add64 load (dsq_queued m w (get_cpu_dsq_from_type dsq_type_normal cpu))
      else load in
    if leb dsq_type_greedy tier
    then add64 load (dsq_queued m w (get_cpu_dsq_from_type dsq_type_greedy cpu))
    else load

-- A cpu that the scan of `pick_enqueue_cpu` weighs: another one of the LLC, online and allowed.
unfoldable pub candidate : Machine → Task → ℕ → ℕ → Bool
candidate m p cpu other =
    not (other == cpu)
    && cpu_llc_id m other == cpu_llc_id m cpu
    && cpu_is_online m other
    && p.allowed other

-- The scan over the other cpus.
module _ (m : Machine) (w : World) (p : Task) (tier cpu start budget : ℕ) where
  -- One candidate: the scratch area, and whether the loop breaks.
  unfoldable pub weigh : ℕ → PickScratch → PickScratch × Bool
  weigh other sc =
      let load : ℕ = cpu_load_ahead m w other tier in
      let better : Bool = ltb load sc.best_load in
      let sc' : PickScratch = if better then record sc { best_load = load; best = other } else sc in
      let counted : PickScratch = record sc' { sampled = add64 sc'.sampled 1 } in
      if better && load == 0 then (sc', true) else (counted, leb budget counted.sampled)

  unfoldable pub visit : ℕ → PickScratch → PickScratch × Bool
  visit i sc =
      let other : ℕ = u32 (start + i) % m.nr_cpu_ids in
      if candidate m p cpu other then weigh other sc else (sc, false)

  unfoldable pub scan : ℕ → ℕ → PickScratch → PickScratch
  scan zero i sc = sc
  scan (suc rounds) i sc =
      let (sc', stop) = visit i sc in elim stop [ true ↦ sc' | false ↦ scan rounds (i + 1) sc' ]

-- The cpu picked, the task's context, and the world.
pub record Picked : Type 0 where
  pub cpu : ℕ
  pub tctx : TaskCtx
  pub world : World

unfoldable pub migrate : TaskCtx → ℕ → ℕ → ℕ → TaskCtx
migrate t cpu target now = if target == cpu then t else record t { last_migrated_at = now }

unfoldable pub latency_tier : ℕ → Bool
latency_tier tier = leb tier dsq_type_interactive

-- From the lookup of the scratch area on.
unfoldable pub balance :
    Machine → Task → TaskCtx → ℕ → ℕ → ℕ → ℕ → World → Option PickScratch → Picked
balance m p t tier cpu now best_load w none = record { cpu = cpu; tctx = t; world = w }
balance m p t tier cpu now best_load w (some old) =
    let n : ℕ = m.nr_cpu_ids in
    let drawn : ℕ = m.random w.trace in
    let budget : ℕ = if latency_tier tier then n else balance_samples in
    let init : PickScratch = record { best_load = best_load; best = cpu; sampled = 0 } in
    let w' : World = emit (draw_random drawn) w in
    let sc : PickScratch = scan m w' p tier cpu (drawn % n) budget n 0 init in
    record { cpu = sc.best; tctx = migrate t cpu sc.best now; world = put_scratch sc w' }

-- After the search for an idle cpu.
unfoldable pub pick_busy : Machine → Task → TaskCtx → ℕ → ℕ → ℕ → ℕ → World → ℤ → Picked
pick_busy m p t tier cpu now best_load w (pos idle) = record {
  cpu = idle;
  tctx = migrate t cpu idle now;
  world = w;
}
pick_busy m p t tier cpu now best_load w (negsuc _) =
    if not (latency_tier tier)
      && ltb (sub64 now t.last_migrated_at) balance_interval_ns
      && not (cpu_taken_by_rt m w cpu)
    then record { cpu = cpu; tctx = t; world = w }
    else balance m p t tier cpu now best_load w w.scratch

unfoldable pub pick_enqueue_cpu : Machine → Task → TaskCtx → ℕ → ℕ → ℕ → World → Picked
pick_enqueue_cpu m p t tier cpu now w =
    let best_load : ℕ = cpu_load_ahead m w cpu tier in
    let idle : ℤ = m.idle_for w.trace p.address in
    if best_load == 0
    then record { cpu = cpu; tctx = t; world = emit (clear_idle cpu) w }
    else if p.nr_cpus_allowed == 1
    then record { cpu = cpu; tctx = t; world = w }
    else pick_busy m p t tier cpu now best_load (emit (pick_idle p.address idle) w) idle
