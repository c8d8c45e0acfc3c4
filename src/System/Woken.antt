-- ===== src/System/Woken.antt =====
-- From the insertion of a task to the dispatch of the cpu that is told of it.
use lunar_sched.Base.{ℕ, refl, sym, subst, ◌⊎◌, inl, inr, ◌∷◌}
use lunar_sched.Boost.{Context}
use lunar_sched.Callbacks.Wakeup.Kicks.{
  ToldIdle, ToldNow, ToldLater, Placed, Returned, lunar_enqueue-Placed,
}
use lunar_sched.Callbacks.Wakeup.{boost_if, lunar_enqueue, has_flag, scx_enq_wakeup}
use lunar_sched.Cpus.{get_task_ctx}
use lunar_sched.Datatypes.{Task}
use lunar_sched.Defines.{dsq_type_empty}
use lunar_sched.Dispatch.Conserve.{Gives}
use lunar_sched.Dispatch.Conserve.Whole.{dispatch_dsq_per_cpu-IsTier}
use lunar_sched.Dispatch.Order.{dispatch_dsq_per_cpu}
use lunar_sched.Invariant.Calls.Placing.{effective_tier-AllValid}
use lunar_sched.Invariant.Task.{AllValid}
use lunar_sched.Invariant.Tasks.{boost_if-AllValid}
use lunar_sched.Kernel.{Machine, World, Trace, dsq_insert, kick_cpu}
use lunar_sched.Tier.Target.{IsTier}
use lunar_sched.Tier.{effective_tier}

-- A queue gives the task that was inserted last, after the kick of a cpu.
abbrev pub Holds : Machine → Type 0
Holds m =
    (t : Trace) (task dsq slice flags cpu kick : ℕ)
    → Gives m dsq (kick_cpu cpu kick ∷ dsq_insert task dsq slice flags ∷ t)

-- The target was idle and takes a task, is preempted, or has a task to run.
pub record Answered (m : Machine) (p : Task) (tier flags : ℕ) (w : World) : Type 0 where
  pub target : ℕ
  pub before : Trace
  pub told :
      (ToldIdle p tier flags target before w
        × IsTier (dispatch_dsq_per_cpu m target dsq_type_empty w).0)
      ⊎ (ToldNow p tier flags target before w ⊎ ToldLater p tier flags target before w)

Placed-Answered :
    (m : Machine) (p : Task) (tier flags : ℕ) (w : World)
    → Holds m
    → IsTier tier
    → Placed p tier flags w
    → Answered m p tier flags w
Placed-Answered m p tier flags w holds t k = record {
  target = k.target;
  before = k.before;
  told = elim k.told [
    | inl idle ↦ inl (
      idle,
      dispatch_dsq_per_cpu-IsTier m k.target tier k.target w t
          (subst (Gives m _) (sym idle.calls) (holds k.before _ _ _ _ _ _)) (inl refl),
    )
    | inr busy ↦ inr busy
  ];
}

-- On a kernel whose queues give the task that was inserted last, from a world with valid contexts: the target of the
-- insertion is kicked as idle and its next dispatch, with no previous task, takes a task; or it is preempted for an LC
-- task; or another task runs there. Or exactly the rest of the slice that is saved in the context of a preempted
-- task is granted at the head of the queue of its own cpu.
pub lunar_enqueue-Answered :
    (m : Machine) (c : Context) (p : Task) (flags : ℕ) (w : World)
    → Holds m
    → AllValid w
    → (let w' = lunar_enqueue m c p flags w in
        let boosted = boost_if (has_flag flags scx_enq_wakeup) c p w in
        let tctx = get_task_ctx boosted p in
        let tier = effective_tier tctx in
        Answered m p tier flags w'
        ⊎ Returned p tier flags (m.task_cpu boosted.trace p.address) tctx w')
lunar_enqueue-Answered m c p flags w holds all =
    let wakeup = has_flag flags scx_enq_wakeup in
    let tiered =
      effective_tier-AllValid (boost_if wakeup c p w) p (boost_if-AllValid wakeup c p w all) in
    elim (lunar_enqueue-Placed m c p flags w) [
      | inl (k, why) ↦ inl (Placed-Answered m p _ flags _ holds tiered k)
      | inr k ↦ inr k
    ]
