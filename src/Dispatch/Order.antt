-- ===== src/Dispatch/Order.antt =====
-- source/dispatches.h: `dispatch_dsq_per_cpu`, the order in which a cpu looks for its next task. The
-- parts are the paragraphs of the function, last first; each goes on with the next one.
use lunar_sched.Base.{
  ℕ, ◌+◌, Bool, true, false, not, none, some, ◌&&◌, ltb, leb, ◌==◌, if◌then◌else◌,
}
use lunar_sched.Cpus.{get_dispatch_ctx, modify_cpu}
use lunar_sched.Datatypes.{DispatchCtx}
use lunar_sched.Defines.{
  dsq_type_lc, dsq_type_interactive, dsq_type_normal, dsq_type_greedy, dsq_type_empty,
  starve_override_budget_ns,
}
use lunar_sched.Dispatch.{
  Test, Action, return_if, return_when, try_acquire_from_rt_cpu, take_from_local_tier,
  take_from_other_tier, most_starved_tier,
}
use lunar_sched.Dsq.{get_cpu_dsq_from_type, dsq_queued}
use lunar_sched.Kernel.{Machine, World, read_clock, emit}

module _ (m : Machine) (cpu now : ℕ) where
  -- The four tiers of other cpus, of this LLC or of the others.
  unfoldable pub steal_tiers : Bool → Action → Action
  steal_tiers this_llc rest =
      return_if (take_from_other_tier m dsq_type_lc cpu now this_llc) dsq_type_lc (
        return_if (take_from_other_tier m dsq_type_interactive cpu now this_llc)
          dsq_type_interactive
          (return_if (take_from_other_tier m dsq_type_normal cpu now this_llc) dsq_type_normal (
            return_if (take_from_other_tier m dsq_type_greedy cpu now this_llc) dsq_type_greedy
              rest)))

  unfoldable pub nothing_found : Action
  nothing_found w = (dsq_type_empty + 1, w)

  unfoldable pub steal : Action
  steal =
      steal_tiers true
        (λ w. if ltb 1 m.nr_llcs then steal_tiers false nothing_found w else nothing_found w)

  -- A tier of this cpu, after the tasks of that tier on cpus taken by realtime tasks.
  unfoldable pub serve_tier : ℕ → Action → Action
  serve_tier tier rest =
      return_if (try_acquire_from_rt_cpu m tier cpu now) tier
        (return_if (take_from_local_tier m tier cpu now) tier rest)

  unfoldable pub serve_own : ℕ → Action
  serve_own prev_tier = return_when (ltb prev_tier dsq_type_interactive) dsq_type_empty (
      serve_tier dsq_type_interactive (
        return_when (ltb prev_tier dsq_type_normal) dsq_type_empty (
          serve_tier dsq_type_normal (
            return_when (ltb prev_tier dsq_type_greedy) dsq_type_empty (
              serve_tier dsq_type_greedy
                (return_when (leb prev_tier dsq_type_greedy) dsq_type_empty steal))))))

  -- The best tier that this cpu could run next: the previous task's, or one of its own queues.
  unfoldable pub local_best : World → ℕ → ℕ
  local_best w prev_tier =
      let best : ℕ = if leb prev_tier dsq_type_greedy then prev_tier else dsq_type_empty in
      let waits : ℕ → Bool = λ tier. not (dsq_queued m w (get_cpu_dsq_from_type tier cpu) == 0) in
      if ltb dsq_type_interactive best && waits dsq_type_interactive
      then dsq_type_interactive
      else if ltb dsq_type_normal best && waits dsq_type_normal
      then dsq_type_normal
      else if ltb dsq_type_greedy best && waits dsq_type_greedy
      then dsq_type_greedy
      else best

  -- `best > tier && take_from_other_tier(tier, …)`.
  unfoldable pub better_tier : ℕ → ℕ → Test
  better_tier best tier w =
      if ltb tier best then take_from_other_tier m tier cpu now true w else (false, w)

  unfoldable pub serve_better : ℕ → Action
  serve_better prev_tier w =
      let best : ℕ = local_best w prev_tier in
      if best == dsq_type_empty
      then serve_own prev_tier w
      else return_if (better_tier best dsq_type_lc) dsq_type_lc
          (return_if (better_tier best dsq_type_interactive) dsq_type_interactive
            (return_if (better_tier best dsq_type_normal) dsq_type_normal (serve_own prev_tier)))
          w

  unfoldable pub begin_override : ℕ → DispatchCtx → DispatchCtx
  begin_override tier d = record d {
    last_override_ts = now;
    override_tier = tier;
    override_left = starve_override_budget_ns;
  }

  -- A new override: of the tier that is starved worst.
  unfoldable pub serve_starved : ℕ → DispatchCtx → Action
  serve_starved prev_tier d w =
      let starved : ℕ = most_starved_tier m w d cpu now in
      if starved == dsq_type_empty
      then serve_better prev_tier w
      else (let (hit, w') = take_from_local_tier m starved cpu now w in
          if hit
          then (starved, modify_cpu cpu (begin_override starved) w')
          else serve_better prev_tier w')

  unfoldable pub end_override : DispatchCtx → DispatchCtx
  end_override d = record d { override_left = 0 }

  unfoldable pub is_override_tier : ℕ → Bool
  is_override_tier tier = leb dsq_type_interactive tier && leb tier dsq_type_greedy

  unfoldable pub override_step : DispatchCtx → Test
  override_step d w =
      if is_override_tier d.override_tier
      then take_from_local_tier m d.override_tier cpu now w
      else (false, w)

  -- The override in progress. `d` is the context as it is in `w`.
  unfoldable pub continue_override : ℕ → DispatchCtx → Action
  continue_override prev_tier d w =
      if d.override_left == 0
      then serve_starved prev_tier d w
      else (let (hit, w') = override_step d w in
          if hit
          then (d.override_tier, w')
          else serve_starved prev_tier (end_override d) (modify_cpu cpu end_override w'))

  unfoldable pub serve_overrides : ℕ → Action
  serve_overrides prev_tier w = elim (get_dispatch_ctx w cpu) [
    | none ↦ serve_better prev_tier w
    | some d ↦ continue_override prev_tier d w
  ]

unfoldable pub dispatch_dsq_per_cpu : Machine → ℕ → ℕ → Action
dispatch_dsq_per_cpu m cpu prev_tier w =
    let now : ℕ = m.clock w.trace in
    serve_tier m cpu now dsq_type_lc (serve_overrides m cpu now prev_tier) (emit (read_clock now) w)
