-- ===== src/Invariant/Calls/Placing.antt =====
-- The calls of `lunar_select_cpu` and `lunar_enqueue`.
use lunar_sched.Base.{
  ℕ, zero, suc, ◌+◌, ◌%◌, ◌<◌, ◌≡◌, refl, inl, inr, Bool, Option, none, some, arith, Bool-cases,
  Option-cases, if_cases, ◌==◌, u32, if◌then◌else◌,
}
use lunar_sched.Base.Int.{ℤ, pos, negsuc}
use lunar_sched.Boost.{Context}
use lunar_sched.Callbacks.Wakeup.{
  boost_if, stamp_empty, kick_target, enqueue_at, enqueue_resume, enqueue_place, enqueue_known,
  lunar_select_cpu, lunar_enqueue, has_flag, scx_enq_wakeup, scx_wake_ttwu,
}
use lunar_sched.Cpus.{get_task_ctx, cpu_is_online, cpu_taken_by_rt}
use lunar_sched.Datatypes.{Task, TaskCtx, DispatchCtx, PickScratch}
use lunar_sched.Dsq.{stamp_tier_head_ts}
use lunar_sched.Invariant.Calls.{Ordered, emit-Ordered, same_trace, Answers, modify_cpu-Ordered}
use lunar_sched.Invariant.Task.{AllValid, effective_tier-IsTier}
use lunar_sched.Invariant.Tasks.{boost_if-AllValid}
use lunar_sched.Kernel.{Machine, World}
use lunar_sched.Placement.{
  weigh, visit, scan, Picked, balance, pick_busy, pick_enqueue_cpu, cpu_load_ahead,
}
use lunar_sched.Tier.Target.{IsTier}
use lunar_sched.Tier.{effective_tier}

boost_if-Ordered :
    (m : Machine) (wakeup : Bool) (c : Context) (p : Task) (w : World)
    → Ordered m w
    → Ordered m (boost_if wakeup c p w)
unfolding boost_if
boost_if-Ordered m wakeup c p w h = elim (Option-cases (get_task_ctx w p)) [
  | inl e ↦ rw (e, boost_if) h
  | inr (t, e) ↦
      rw (e, boost_if) (if_cases (Ordered m) wakeup _ _ (λ _. same_trace m w _ refl h) (λ _. h))
]

pub lunar_select_cpu-Ordered :
    (m : Machine) (c : Context) (p : Task) (flags : ℕ) (w : World)
    → Ordered m w
    → Ordered m (lunar_select_cpu m c p flags w).1
unfolding lunar_select_cpu
lunar_select_cpu-Ordered m c p flags w h =
    let boosted = boost_if-Ordered m (has_flag flags scx_wake_ttwu) c p w h in
    record { calls = ground (arith, boosted.calls) }

pub effective_tier-AllValid :
    (w : World) (p : Task) → AllValid w → IsTier (effective_tier (get_task_ctx w p))
unfolding effective_tier
effective_tier-AllValid w p all = elim (Option-cases (get_task_ctx w p)) [
  | inl e ↦ rw e (omega arith)
  | inr (t, e) ↦ rw e (effective_tier-IsTier t (all.each p.address t e))
]

module _ (m : Machine) (k : Answers m) where
  -- The scan ends with the cpu that it began with, or with one that it visited.
  module _ (w : World) (p : Task) (tier cpu start budget : ℕ) where
    visit_below :
        (i : ℕ) (sc : PickScratch)
        → sc.best < m.nr_cpu_ids
        → (visit m w p tier cpu start budget i sc).0.best < m.nr_cpu_ids
    unfolding visit weigh
    visit_below i sc h =
        let inside : u32 (start + i) % m.nr_cpu_ids < m.nr_cpu_ids = omega (arith, h) in
        ground (arith, h, inside)

    scan_below :
        (rounds i : ℕ) (sc : PickScratch)
        → sc.best < m.nr_cpu_ids
        → (scan m w p tier cpu start budget rounds i sc).best < m.nr_cpu_ids
    unfolding scan
    scan_below zero i sc h = h
    scan_below (suc rounds) i sc h =
        let next = visit_below i sc h in
        elim (Bool-cases (visit m w p tier cpu start budget i sc).1) [
          | inl e ↦ rw (e, scan) next
          | inr e ↦ rw (e, scan) (scan_below rounds (i + 1) _ next)
        ]

  -- The cpu picked exists, and the calls made are in order.
  abbrev Within : Picked → Type 0
  Within r = (r.cpu < m.nr_cpu_ids) × Ordered m r.world

  balance-Within :
      (p : Task) (t : TaskCtx) (tier cpu now load : ℕ) (w : World) (o : Option PickScratch)
      → cpu < m.nr_cpu_ids
      → Ordered m w
      → Within (balance m p t tier cpu now load w o)
  unfolding balance
  balance-Within p t tier cpu now load w none below h = (below, h)
  balance-Within p t tier cpu now load w (some old) below h =
      (scan_below _ p tier cpu _ _ m.nr_cpu_ids 0 _ below, record { calls = (tt, h.calls) })

  pick_busy-Within :
      (p : Task) (t : TaskCtx) (tier cpu now load : ℕ) (w : World) (idle : ℤ)
      → ((c : ℕ) → idle ≡ pos c → c < m.nr_cpu_ids)
      → cpu < m.nr_cpu_ids
      → Ordered m w
      → Within (pick_busy m p t tier cpu now load w idle)
  unfolding pick_busy
  pick_busy-Within p t tier cpu now load w (pos idle) inside below h = (inside idle refl, h)
  pick_busy-Within p t tier cpu now load w (negsuc n) inside below h =
      if_cases Within _ _ _ (λ _. (below, h))
        (λ _. balance-Within p t tier cpu now load w w.scratch below h)

  pick_enqueue_cpu-Within :
      (p : Task) (t : TaskCtx) (tier cpu now : ℕ) (w : World)
      → cpu < m.nr_cpu_ids
      → Ordered m w
      → Within (pick_enqueue_cpu m p t tier cpu now w)
  unfolding pick_enqueue_cpu
  pick_enqueue_cpu-Within p t tier cpu now w below h =
      if_cases Within (cpu_load_ahead m w cpu tier == 0) _ _
        (λ _. (below, emit-Ordered m _ _ below h))
        λ _.
          if_cases Within (p.nr_cpus_allowed == 1) _ _ (λ _. (below, h))
            λ _.
              pick_busy-Within p t tier cpu now _ _ _ (k.idle_below w.trace p.address) below
                (emit-Ordered m _ _ tt h)

  stamp_empty-Ordered :
      (tier cpu now : ℕ) (w : World) → Ordered m w → Ordered m (stamp_empty m tier cpu now w)
  unfolding stamp_empty
  stamp_empty-Ordered tier cpu now w h =
      if_cases (Ordered m) _ _ _ (λ _. modify_cpu-Ordered m cpu (stamp_tier_head_ts tier now) w h)
        (λ _. h)

  kick_target-Ordered :
      (tier target flags : ℕ) (w : World) (o : Option DispatchCtx)
      → target < m.nr_cpu_ids
      → Ordered m w
      → Ordered m (kick_target tier target flags w o)
  unfolding kick_target
  kick_target-Ordered tier target flags w none below h = emit-Ordered m _ w below h
  kick_target-Ordered tier target flags w (some d) below h = record {
    calls = ground (arith, below, h.calls);
  }

  enqueue_at-Ordered :
      (p : Task) (flags tier now cpu picked : ℕ) (w : World)
      → IsTier tier
      → cpu < m.nr_cpu_ids
      → picked < m.nr_cpu_ids
      → Ordered m w
      → Ordered m (enqueue_at m p flags tier now cpu picked w)
  unfolding enqueue_at
  enqueue_at-Ordered p flags tier now cpu picked w t below inside h =
      let target : ℕ = if cpu_is_online m picked then picked else cpu in
      let exists : target < m.nr_cpu_ids = ground (arith, below, inside) in
      kick_target-Ordered tier target flags _ _ exists (
        emit-Ordered m _ _ (inr (tier, target, t, exists, refl), omega arith)
          (stamp_empty-Ordered tier target now w h))

  enqueue_place-Ordered :
      (p : Task) (t : TaskCtx) (flags tier now cpu : ℕ) (w : World)
      → IsTier tier
      → cpu < m.nr_cpu_ids
      → Ordered m w
      → Ordered m (enqueue_place m p t flags tier now cpu w)
  unfolding enqueue_place
  enqueue_place-Ordered p t flags tier now cpu w tiered below h =
      let (inside, after) = pick_enqueue_cpu-Within p t tier cpu now w below h in
      enqueue_at-Ordered p flags tier now cpu _ _ tiered below (omega (arith, inside, k.few))
        (same_trace m _ _ refl after)

  enqueue_known-Ordered :
      (p : Task) (t : TaskCtx) (flags tier now cpu : ℕ) (w : World)
      → IsTier tier
      → cpu < m.nr_cpu_ids
      → Ordered m w
      → Ordered m (enqueue_known m p t flags tier now cpu w)
  unfolding enqueue_known enqueue_resume
  enqueue_known-Ordered p t flags tier now cpu w tiered below h =
      if_cases (Ordered m) (t.resume_slice == 0) _ _
        (λ _. enqueue_place-Ordered p t flags tier now cpu w tiered below h)
        λ left.
          if_cases (Ordered m) (cpu_taken_by_rt m w cpu) _ _
            (λ _. enqueue_place-Ordered p _ flags tier now cpu w tiered below h)
            λ _.
              emit-Ordered m _ _ (inr (tier, cpu, tiered, below, refl), ground (arith, left))
                (stamp_empty-Ordered tier cpu now _ (same_trace m w _ refl h))

  pub lunar_enqueue-Ordered :
      (c : Context) (p : Task) (flags : ℕ) (w : World)
      → AllValid w
      → Ordered m w
      → Ordered m (lunar_enqueue m c p flags w)
  unfolding lunar_enqueue
  lunar_enqueue-Ordered c p flags w all h =
      let wakeup : Bool = has_flag flags scx_enq_wakeup in
      let boosted : World = boost_if wakeup c p w in
      let so_far = boost_if-Ordered m wakeup c p w h in
      let tiered = effective_tier-AllValid boosted p (boost_if-AllValid wakeup c p w all) in
      let below = k.task_cpu_below boosted.trace p.address in
      elim (Option-cases (get_task_ctx boosted p)) [
        | inl e ↦
            rw (e, lunar_enqueue)
              (enqueue_at-Ordered p flags _ _ _ _ _ tiered below below
                (emit-Ordered m _ _ tt so_far))
        | inr (t, e) ↦
            rw (e, lunar_enqueue)
              (enqueue_known-Ordered p t flags _ _ _ _ tiered below (emit-Ordered m _ _ tt so_far))
      ]
