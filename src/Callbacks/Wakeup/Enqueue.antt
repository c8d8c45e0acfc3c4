-- ===== src/Callbacks/Wakeup/Enqueue.antt =====
-- Where `lunar_enqueue` puts a task.
use lunar_sched.Base.{
  ℕ, ◌≡◌, refl, ◌∙◌, ap, ◌⊎◌, inl, inr, Bool, true, Option, none, some, List, [], ◌∷◌, arith,
  Option-cases, if_cases, ◌==◌, if◌then◌else◌,
}
use lunar_sched.Base.Int.{ℤ, pos, negsuc}
use lunar_sched.Boost.{Context}
use lunar_sched.Callbacks.Wakeup.{
  boost_if, stamp_empty, kick_target, enqueue_at, enqueue_resume, enqueue_place, enqueue_known,
  lunar_enqueue, has_flag, scx_enq_wakeup,
}
use lunar_sched.Cpus.{get_task_ctx, get_dispatch_ctx, modify_cpu, cpu_is_online, cpu_taken_by_rt}
use lunar_sched.Datatypes.{Task, TaskCtx, DispatchCtx, PickScratch}
use lunar_sched.Dsq.{get_cpu_dsq_from_type, stamp_tier_head_ts}
use lunar_sched.Kernel.{Machine, World, Trace, dsq_insert, pick_idle, emit}
use lunar_sched.Placement.{cpu_load_ahead, balance, pick_busy, pick_enqueue_cpu}
use lunar_sched.Tier.{effective_tier}

-- The tasks inserted and the queues they went to, newest first.
abbrev pub inserts_of : Trace → List (ℕ × ℕ)
inserts_of [] = []
inserts_of (dsq_insert task dsq slice flags ∷ t) = (task, dsq) ∷ inserts_of t
inserts_of (_ ∷ t) = inserts_of t

-- One insertion of the task, to a queue of the tier on an online cpu or on its own.
module _ (m : Machine) (p : Task) (tier cpu : ℕ) where
  pub record Inserted (w w' : World) : Type 0 where
    pub target : ℕ
    pub runs : (target ≡ cpu) ⊎ (cpu_is_online m target ≡ true)
    pub one :
        inserts_of w'.trace ≡ (p.address, get_cpu_dsq_from_type tier target) ∷ inserts_of w.trace

abbrev Silent : World → World → Type 0
Silent w w' = inserts_of w'.trace ≡ inserts_of w.trace

modify_cpu-Silent :
    (cpu : ℕ) (f : DispatchCtx → DispatchCtx) (w : World) → Silent w (modify_cpu cpu f w)
unfolding modify_cpu
modify_cpu-Silent cpu f w = elim (Option-cases (get_dispatch_ctx w cpu)) [
  | inl e ↦ rw (e, modify_cpu)
  | inr (d, e) ↦ rw (e, modify_cpu)
]

stamp_empty-Silent :
    (m : Machine) (tier cpu now : ℕ) (w : World) → Silent w (stamp_empty m tier cpu now w)
unfolding stamp_empty
stamp_empty-Silent m tier cpu now w =
    ground (arith, modify_cpu-Silent cpu (stamp_tier_head_ts tier now) w)

kick_target-Silent :
    (tier target flags : ℕ) (w : World) (o : Option DispatchCtx)
    → Silent w (kick_target tier target flags w o)
unfolding kick_target
kick_target-Silent tier target flags w none = refl
kick_target-Silent tier target flags w (some d) = ground arith

balance-Silent :
    (m : Machine) (p : Task) (t : TaskCtx) (tier cpu now load : ℕ) (w : World)
    (o : Option PickScratch)
    → Silent w (balance m p t tier cpu now load w o).world
unfolding balance
balance-Silent m p t tier cpu now load w none = refl
balance-Silent m p t tier cpu now load w (some old) = refl

pick_busy-Silent :
    (m : Machine) (p : Task) (t : TaskCtx) (tier cpu now load : ℕ) (w : World) (idle : ℤ)
    → Silent w (pick_busy m p t tier cpu now load w idle).world
unfolding pick_busy
pick_busy-Silent m p t tier cpu now load w (pos idle) = refl
pick_busy-Silent m p t tier cpu now load w (negsuc k) =
    ground (arith, balance-Silent m p t tier cpu now load w w.scratch)

pick_enqueue_cpu-Silent :
    (m : Machine) (p : Task) (t : TaskCtx) (tier cpu now : ℕ) (w : World)
    → Silent w (pick_enqueue_cpu m p t tier cpu now w).world
unfolding pick_enqueue_cpu
pick_enqueue_cpu-Silent m p t tier cpu now w =
    let idle : ℤ = m.idle_for w.trace p.address in
    let w1 : World = emit (pick_idle p.address idle) w in
    ground (arith, pick_busy-Silent m p t tier cpu now (cpu_load_ahead m w cpu tier) w1 idle)

boost_if-Silent :
    (wakeup : Bool) (c : Context) (p : Task) (w : World) → Silent w (boost_if wakeup c p w)
unfolding boost_if
boost_if-Silent wakeup c p w = elim (Option-cases (get_task_ctx w p)) [
  | inl e ↦ rw (e, boost_if)
  | inr (t, e) ↦ rw (e, boost_if) (ground arith)
]

enqueue_at-Inserted :
    (m : Machine) (p : Task) (flags tier now cpu picked : ℕ) (w : World)
    → Inserted m p tier cpu w (enqueue_at m p flags tier now cpu picked w)
unfolding enqueue_at
enqueue_at-Inserted m p flags tier now cpu picked w =
    let target : ℕ = if cpu_is_online m picked then picked else cpu in
    record {
      target = target;
      runs = ground arith;
      one =
          kick_target-Silent tier target flags _ _
          ∙ ap (◌∷◌ (p.address, get_cpu_dsq_from_type tier target))
              (stamp_empty-Silent m tier target now w);
    }

after :
    (m : Machine) (p : Task) (tier cpu : ℕ) (a b c : World)
    → Silent a b
    → Inserted m p tier cpu b c
    → Inserted m p tier cpu a c
after m p tier cpu a b c h k = record {
  target = k.target;
  runs = k.runs;
  one = k.one ∙ ap (◌∷◌ (p.address, get_cpu_dsq_from_type tier k.target)) h;
}

enqueue_place-Inserted :
    (m : Machine) (p : Task) (t : TaskCtx) (flags tier now cpu : ℕ) (w : World)
    → Inserted m p tier cpu w (enqueue_place m p t flags tier now cpu w)
unfolding enqueue_place
enqueue_place-Inserted m p t flags tier now cpu w =
    after m p tier cpu w _ _ (pick_enqueue_cpu-Silent m p t tier cpu now w)
      (enqueue_at-Inserted m p flags tier now cpu _ _)

enqueue_resume-Inserted :
    (m : Machine) (p : Task) (t : TaskCtx) (flags tier now cpu : ℕ) (w : World)
    → Inserted m p tier cpu w (enqueue_resume m p t flags tier now cpu w)
unfolding enqueue_resume
enqueue_resume-Inserted m p t flags tier now cpu w = record {
  target = cpu;
  runs = inl refl;
  one = ap (◌∷◌ (p.address, get_cpu_dsq_from_type tier cpu)) (stamp_empty-Silent m tier cpu now _);
}

enqueue_known-Inserted :
    (m : Machine) (p : Task) (t : TaskCtx) (flags tier now cpu : ℕ) (w : World)
    → Inserted m p tier cpu w (enqueue_known m p t flags tier now cpu w)
unfolding enqueue_known
enqueue_known-Inserted m p t flags tier now cpu w =
    if_cases (Inserted m p tier cpu w) (t.resume_slice == 0) _ _
      (λ _. enqueue_place-Inserted m p t flags tier now cpu w)
      λ _.
        if_cases (Inserted m p tier cpu w) (cpu_taken_by_rt m w cpu) _ _
          (λ _. enqueue_place-Inserted m p _ flags tier now cpu w)
          λ _. enqueue_resume-Inserted m p t flags tier now cpu w

-- The tier and the cpu that `lunar_enqueue` starts from.
abbrev pub Enqueued : Machine → Context → Task → ℕ → World → World → Type 0
Enqueued m c p flags w w' =
    let boosted : World = boost_if (has_flag flags scx_enq_wakeup) c p w in
    Inserted m p (effective_tier (get_task_ctx boosted p)) (m.task_cpu boosted.trace p.address) w w'

-- Every enqueued task is inserted into exactly one queue: that of its effective tier, once a wakeup has
-- lent it a boost, on its own cpu or on an online one.
pub lunar_enqueue-Enqueued :
    (m : Machine) (c : Context) (p : Task) (flags : ℕ) (w : World)
    → Enqueued m c p flags w (lunar_enqueue m c p flags w)
unfolding lunar_enqueue
lunar_enqueue-Enqueued m c p flags w =
    let boosted : World = boost_if (has_flag flags scx_enq_wakeup) c p w in
    let silent = boost_if-Silent (has_flag flags scx_enq_wakeup) c p w in
    elim (Option-cases (get_task_ctx boosted p)) [
      | inl e ↦
          rw (e, lunar_enqueue, e)
            (after m p _ _ w _ _ silent (enqueue_at-Inserted m p flags _ _ _ _ _))
      | inr (t, e) ↦
          rw (e, lunar_enqueue, e)
            (after m p _ _ w _ _ silent (enqueue_known-Inserted m p t flags _ _ _ _))
    ]
