-- ===== src/Callbacks/Wakeup/Kicks.antt =====
-- Whom `lunar_enqueue` tells of the task that it has inserted.
use lunar_sched.Base.{
  ℕ, ◌<◌, ◌≡◌, refl, ap, subst, ◌⊎◌, inl, inr, Bool, true, false, Option, none, some, ◌∷◌, arith,
  bit_or, Bool-cases, Option-cases, ◌==◌, ==-self, ltb, ◌&&◌, if◌then◌else◌,
}
use mathlib.Core.Option.{some-injective}
use lunar_sched.Boost.{Context}
use lunar_sched.Callbacks.Wakeup.{
  boost_if, stamp_empty, kick_target, enqueue_at, enqueue_resume, enqueue_place, enqueue_known,
  lunar_enqueue, has_flag, scx_enq_wakeup, scx_enq_head, scx_kick_preempt,
}
use lunar_sched.Cpus.{get_task_ctx, get_dispatch_ctx, cpu_is_online, cpu_taken_by_rt}
use lunar_sched.Datatypes.{Task, TaskCtx, DispatchCtx}
use lunar_sched.Defines.{dsq_type_empty, slice_ns}
use lunar_sched.Dispatch.Kick.{scx_kick_idle}
use lunar_sched.Dsq.{get_cpu_dsq_from_type}
use lunar_sched.Kernel.{Machine, World, Trace, Event, dsq_insert, kick_cpu, read_clock, emit}
use lunar_sched.Tier.{effective_tier}

-- The insertion of the task into the queue of the tier on the target.
abbrev pub inserted : Task → ℕ → ℕ → ℕ → Event
inserted p tier flags target =
    dsq_insert p.address (get_cpu_dsq_from_type tier target) slice_ns flags

-- A wakeup of an LC task that finds a worse tier running.
abbrev pub urgent : ℕ → ℕ → DispatchCtx → Bool
urgent tier flags d = tier == 1 && has_flag flags scx_enq_wakeup && ltb tier d.current_task_dsq_type

abbrev pub runs_nothing : Option DispatchCtx → Bool
runs_nothing none = true
runs_nothing (some d) = d.current_task_dsq_type == dsq_type_empty

module _ (p : Task) (tier flags target : ℕ) (before : Trace) (w : World) where
  -- The target runs nothing that is known, and is kicked as idle.
  pub record ToldIdle : Type 0 where
    pub idle : runs_nothing (w.cpus target) ≡ true
    pub calls : w.trace ≡ kick_cpu target scx_kick_idle ∷ inserted p tier flags target ∷ before

  -- The target is preempted, and knows it.
  pub record ToldNow : Type 0 where
    pub dctx : DispatchCtx
    pub known : w.cpus target ≡ some dctx
    pub worse : urgent tier flags dctx ≡ true
    pub pending : dctx.preempt_pending ≡ true
    pub calls : w.trace ≡ kick_cpu target scx_kick_preempt ∷ inserted p tier flags target ∷ before

  -- The target runs a task, and finds the inserted one when that is done.
  pub record ToldLater : Type 0 where
    pub dctx : DispatchCtx
    pub known : w.cpus target ≡ some dctx
    pub runs : (dctx.current_task_dsq_type == dsq_type_empty) ≡ false
    pub patient : urgent tier flags dctx ≡ false
    pub calls : w.trace ≡ inserted p tier flags target ∷ before

  abbrev pub Told : Type 0
  Told = ToldIdle ⊎ (ToldNow ⊎ ToldLater)

kick_target-Told :
    (p : Task) (tier flags target : ℕ) (before : Trace) (w : World)
    → w.trace ≡ inserted p tier flags target ∷ before
    → Told p tier flags target before (kick_target tier target flags w (get_dispatch_ctx w target))
unfolding kick_target
kick_target-Told p tier flags target before w e = elim (Option-cases (get_dispatch_ctx w target)) [
  | inl n ↦
      rw (n, kick_target)
        (inl (record { idle = rw n refl; calls = ap (◌∷◌ (kick_cpu target scx_kick_idle)) e }))
  | inr (d, k) ↦
      rw (k, kick_target)
        (elim (Bool-cases (d.current_task_dsq_type == dsq_type_empty)) [
          | inl idle ↦ rw idle (
              inl (record { idle = rw k idle; calls = ap (◌∷◌ (kick_cpu target scx_kick_idle)) e }))
          | inr runs ↦ rw runs (elim (Bool-cases (urgent tier flags d)) [
            | inl now ↦ rw now (
                inr (
                  inl (record {
                    dctx = record d { preempt_pending = true };
                    known = rw (==-self target) refl;
                    worse = now;
                    pending = refl;
                    calls = ap (◌∷◌ (kick_cpu target scx_kick_preempt)) e;
                  })))
            | inr later ↦ rw later (
                inr (inr (record { dctx = d; known = k; runs = runs; patient = later; calls = e })))
          ])
        ])
]

-- The target of an insertion with whom it is told to.
pub record Placed (p : Task) (tier flags : ℕ) (w : World) : Type 0 where
  pub target : ℕ
  pub before : Trace
  pub told : Told p tier flags target before w

-- A preempted task returns to the head of the queue of its own cpu, with the rest of its slice, and no cpu is
-- kicked.
pub record Returned (p : Task) (tier flags cpu : ℕ) (o : Option TaskCtx) (w : World) : Type 0 where
  pub tctx : TaskCtx
  pub before : Trace
  pub known : o ≡ some tctx
  pub some_left : 0 < tctx.resume_slice
  pub calls :
      w.trace
      ≡ dsq_insert p.address
          (get_cpu_dsq_from_type tier cpu)
          tctx.resume_slice
          (bit_or flags scx_enq_head)
        ∷ before

-- The task has no rest of a slice to return with, or a realtime task has taken its cpu.
abbrev pub NoReturn : Machine → World → ℕ → Option TaskCtx → Type 0
NoReturn m w cpu o =
    (t : TaskCtx) → o ≡ some t → (t.resume_slice ≡ 0) ⊎ (cpu_taken_by_rt m w cpu ≡ true)

module _ (m : Machine) (p : Task) (flags tier now cpu : ℕ) where
  enqueue_at-Placed :
      (picked : ℕ) (w : World) → Placed p tier flags (enqueue_at m p flags tier now cpu picked w)
  unfolding enqueue_at
  enqueue_at-Placed picked w = record {
    target = if cpu_is_online m picked then picked else cpu;
    before = (stamp_empty m tier (if cpu_is_online m picked then picked else cpu) now w).trace;
    told = kick_target-Told p tier flags _ _ _ refl;
  }

  enqueue_place-Placed :
      (t : TaskCtx) (w : World) → Placed p tier flags (enqueue_place m p t flags tier now cpu w)
  unfolding enqueue_place
  enqueue_place-Placed t w = enqueue_at-Placed _ _

  enqueue_known-Placed :
      (t : TaskCtx) (w : World)
      → (let w' = enqueue_known m p t flags tier now cpu w in
          (Placed p tier flags w' × NoReturn m w cpu (some t))
          ⊎ Returned p tier flags cpu (some t) w')
  unfolding enqueue_known enqueue_resume
  enqueue_known-Placed t w = elim (Bool-cases (t.resume_slice == 0)) [
    | inl e ↦ rw e (
        inl (
          enqueue_place-Placed t w,
          λ t' same. inl (
              subst (λ (a : TaskCtx). a.resume_slice ≡ 0) (some-injective _ _ same)
                (ground (arith, e))),
        ))
    | inr left ↦ (elim (Bool-cases (cpu_taken_by_rt m w cpu)) [
      | inl e ↦ rw (left, e) (inl (enqueue_place-Placed _ w, λ t' same. inr refl))
      | inr e ↦
          rw (left, e)
            (inr (record {
              tctx = t;
              before = _;
              known = refl;
              some_left = ground (arith, left);
              calls = refl;
            }))
    ])
  ]

pub lunar_enqueue-Placed :
    (m : Machine) (c : Context) (p : Task) (flags : ℕ) (w : World)
    → (let w' = lunar_enqueue m c p flags w in
        let boosted = boost_if (has_flag flags scx_enq_wakeup) c p w in
        let tctx = get_task_ctx boosted p in
        let tier = effective_tier tctx in
        let cpu = m.task_cpu boosted.trace p.address in
        let timed = emit (read_clock (m.clock boosted.trace)) boosted in
        (Placed p tier flags w' × NoReturn m timed cpu tctx) ⊎ Returned p tier flags cpu tctx w')
unfolding lunar_enqueue
lunar_enqueue-Placed m c p flags w =
    elim (Option-cases (get_task_ctx (boost_if (has_flag flags scx_enq_wakeup) c p w) p)) [
      | inl e ↦
          rw (e, lunar_enqueue, e)
            (inl (enqueue_at-Placed m p flags _ _ _ _ _, λ t k. absurd (ground (arith, k))))
      | inr (t, e) ↦ rw (e, lunar_enqueue, e) (enqueue_known-Placed m p flags _ _ _ t _)
    ]
