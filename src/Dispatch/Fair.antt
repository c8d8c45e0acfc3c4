-- ===== src/Dispatch/Fair.antt =====
-- source/dispatches.h: which of two tiers an override goes to, after the other had one.
use lunar_sched.Base.{ℕ, ◌+◌, ◌≤◌, ◌<◌, ◌≡◌, ◌≢◌, arith, some, subst, sub64}
use lunar_sched.Datatypes.{DispatchCtx}
use lunar_sched.Defines.{starve_override_cooldown_ns}
use lunar_sched.Dispatch.Order.{dispatch_dsq_per_cpu}
use lunar_sched.Dispatch.Begun.{begun, NoLc}
use lunar_sched.Dispatch.Served.{GivesOwn, dispatch_dsq_per_cpu_starved}
use lunar_sched.Dispatch.Starve.{starve_budget, BelowLc, Late, late_by, Clocked, Latest}
use lunar_sched.Dsq.{get_cpu_dsq_from_type, dsq_queued}
use lunar_sched.Kernel.{Machine, World}

-- The tier waited over its budget at `first`, and is not served since; the other was served at `first` or later.
pub record Waits (d : DispatchCtx) (tier other first now : ℕ) : Type 0 where
  pub late : d.tier_head_ts tier + starve_budget tier < first
  pub since : first ≤ d.tier_head_ts other
  pub past : d.tier_head_ts other ≤ now

-- The tier is late, and by more than the other.
Waits-late_by :
    (m : Machine) (w : World) (d : DispatchCtx) (cpu now tier other first : ℕ)
    → Waits d tier other first now
    → late_by m w d cpu now other < late_by m w d cpu now tier
Waits-late_by m w d cpu now tier other first h = omega (arith, h.late, h.since, h.past)

-- While a tier below LC has a task, was last served longer before an earlier time than its budget, and no override is
-- in progress nor was begun in the last 10ms, a dispatch that finds no LC task to take, in the cpu's own queue or on the
-- cpus of its LLC that realtime tasks have taken, does not return a tier that was served at that time or later. For clocks
-- below 2^63, with no tier served in the future, and provided that queues that hold a task give it.
pub dispatch_dsq_per_cpu_fair :
    (m : Machine) (cpu prev_tier tier other first : ℕ) (d : DispatchCtx) (w : World)
    → NoLc m cpu w
    → w.cpus cpu ≡ some d
    → d.override_left ≡ 0
    → starve_override_cooldown_ns ≤ sub64 (m.clock w.trace) d.last_override_ts
    → BelowLc tier
    → Clocked m (begun m cpu w) d cpu (m.clock w.trace)
    → Waits d tier other first (m.clock w.trace)
    → 0 < dsq_queued m (begun m cpu w) (get_cpu_dsq_from_type tier cpu)
    → ((own : ℕ) → GivesOwn m cpu w own)
    → (dispatch_dsq_per_cpu m cpu prev_tier w).0 ≢ other
dispatch_dsq_per_cpu_fair m cpu prev_tier tier other first d w none_first known idle cool below_lc
      clocked h waits gives same =
    let now : ℕ = m.clock w.trace in
    let late : Late m (begun m cpu w) d cpu now tier = record {
      queued = waits;
      over = omega (arith, h.late, h.since, h.past);
    } in
    let (latest, _, _) =
      dispatch_dsq_per_cpu_starved m cpu w d prev_tier tier none_first known idle cool below_lc
        clocked late gives in
    let other_latest : Latest m (begun m cpu w) d cpu now other =
      subst (Latest m (begun m cpu w) d cpu now) same latest in
    omega (
      arith,
      other_latest.furthest tier below_lc late,
      Waits-late_by m (begun m cpu w) d cpu now tier other first h,
    )
