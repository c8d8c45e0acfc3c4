-- ===== src/Callbacks/Resume.antt =====
-- A preempted task, from `lunar_stopping` to `lunar_enqueue`.
use lunar_sched.Base.{
  ℕ, ◌+◌, ◌-◌, ◌^◌, ◌<◌, ◌≡◌, refl, sym, subst, ◌∙◌, Bool, true, false, some, ◌∷◌, arith, bit_or,
  ==-self, Option-cases, inl, inr,
}
use lunar_sched.Boost.{Context, charge_override, charge_wake_boost}
use lunar_sched.Callbacks.Run.{
  stop_account, account_run, set_duty, stop_slice, end_boost_if, stop_on, lunar_stopping,
}
use lunar_sched.Callbacks.Wakeup.{
  boost_if, enqueue_known, enqueue_resume, stamp_empty, lunar_enqueue, has_flag, scx_enq_wakeup,
  scx_enq_head,
}
use lunar_sched.Cpus.{get_task_ctx, cpu_taken_by_rt}
use lunar_sched.Crit.{elapsed}
use lunar_sched.Datatypes.{Task, TaskCtx, DispatchCtx}
use lunar_sched.Defines.{resume_slice_min_ns}
use lunar_sched.Dsq.{get_cpu_dsq_from_type}
use lunar_sched.Duty.{duty_account}
use lunar_sched.Kernel.{Machine, World, Trace, dsq_insert, read_clock, emit, put_task}
use lunar_sched.Tier.Update.{update_task_dsq_type_frame}
use lunar_sched.Tier.{effective_tier}

stop_account-granted :
    (kthread : Bool) (t : TaskCtx) (now : ℕ)
    → (stop_account kthread t now).granted_slice ≡ t.granted_slice
unfolding stop_account account_run set_duty duty_account charge_wake_boost
stop_account-granted kthread t now = rw (update_task_dsq_type_frame kthread _ now) (ground arith)

stop_slice-resume :
    (d : DispatchCtx) (used : ℕ) (t : TaskCtx)
    → d.preempt_pending ≡ true
    → used + resume_slice_min_ns < t.granted_slice
    → t.granted_slice < 2 ^ 64
    → (stop_slice d true 0 used t).resume_slice ≡ t.granted_slice - used
unfolding stop_slice end_boost_if
stop_slice-resume d used t h k l = ground arith

charge_override-pending :
    (d : DispatchCtx) (tier used : ℕ)
    → (charge_override d tier used).preempt_pending ≡ d.preempt_pending
unfolding charge_override
charge_override-pending d tier used = ground arith

-- The context of a task that a preemption stopped has the rest of its slice.
pub record Saved (p : Task) (rest : ℕ) (w : World) : Type 0 where
  pub tctx : TaskCtx
  pub known : get_task_ctx w p ≡ some tctx
  pub left : tctx.resume_slice ≡ rest

-- A preemption kick leaves a slice of 0 and a cpu with `preempt_pending` set.
pub record Preempted (m : Machine) (p : Task) (t : TaskCtx) (w : World) : Type 0 where
  pub dctx : DispatchCtx
  pub known : get_task_ctx w p ≡ some t
  pub cpu : w.cpus (m.task_cpu (read_clock (m.clock w.trace) ∷ w.trace) p.address) ≡ some dctx
  pub pending : dctx.preempt_pending ≡ true
  pub slice : p.slice ≡ 0
  pub enough : elapsed (m.clock w.trace) t.started_at + resume_slice_min_ns < t.granted_slice
  pub fits : t.granted_slice < 2 ^ 64

stop_on-Saved :
    (p : Task) (t : TaskCtx) (now cpu : ℕ) (d : DispatchCtx) (w : World)
    → d.preempt_pending ≡ true
    → p.slice ≡ 0
    → elapsed now t.started_at + resume_slice_min_ns < t.granted_slice
    → t.granted_slice < 2 ^ 64
    → Saved p (t.granted_slice - elapsed now t.started_at) (stop_on p true t now cpu (some d) w)
unfolding stop_on
stop_on-Saved p t now cpu d w pend zero_slice enough fits =
    let used : ℕ = elapsed now t.started_at in
    let d' : DispatchCtx = charge_override d (effective_tier (some t)) used in
    let t' : TaskCtx = stop_account p.pf_kthread t now in
    let same : t'.granted_slice ≡ t.granted_slice = stop_account-granted p.pf_kthread t now in
    record {
      tctx = stop_slice d' true p.slice used t';
      known = rw (==-self p.address) refl;
      left = rw zero_slice (
          omega (
            arith,
            same,
            stop_slice-resume d' used t' (charge_override-pending d _ used ∙ pend)
                (omega (arith, same, enough)) (omega (arith, same, fits)),
          ));
    }

lunar_stopping-Saved :
    (m : Machine) (p : Task) (t : TaskCtx) (w : World)
    → Preempted m p t w
    → Saved p (t.granted_slice - elapsed (m.clock w.trace) t.started_at) (lunar_stopping m p true w)
unfolding lunar_stopping
lunar_stopping-Saved m p t w h =
    rw (h.known, lunar_stopping)
      (rw h.cpu (stop_on-Saved p t _ _ h.dctx _ h.pending h.slice h.enough h.fits))

-- The last call was to insert the task at the head of the queue of its effective tier on its own cpu,
-- with this slice.
pub record Resumed (m : Machine) (p : Task) (rest flags : ℕ) (w w' : World) : Type 0 where
  pub before : Trace
  pub last :
      w'.trace
      ≡ dsq_insert p.address
          (get_cpu_dsq_from_type (effective_tier (get_task_ctx w p)) (m.task_cpu w.trace p.address))
          rest
          (bit_or flags scx_enq_head)
        ∷ before

boost_if_other : (c : Context) (p : Task) (w : World) → boost_if false c p w ≡ w
unfolding boost_if
boost_if_other c p w = elim (Option-cases (get_task_ctx w p)) [
  | inl e ↦ rw (e, boost_if)
  | inr (t, e) ↦ rw (e, boost_if)
]

enqueue_known-Resumed :
    (m : Machine) (p : Task) (t : TaskCtx) (flags tier now cpu : ℕ) (w : World)
    → 0 < t.resume_slice
    → cpu_taken_by_rt m w cpu ≡ false
    → enqueue_known m p t flags tier now cpu w ≡ enqueue_resume m p t flags tier now cpu w
unfolding enqueue_known
enqueue_known-Resumed m p t flags tier now cpu w h e = ground (arith, e)

enqueue_resume-Resumed :
    (m : Machine) (p : Task) (t : TaskCtx) (flags now : ℕ) (a w : World)
    → get_task_ctx a p ≡ some t
    → Resumed m p t.resume_slice flags a
        (enqueue_resume m p t flags (effective_tier (some t)) now (m.task_cpu a.trace p.address) w)
unfolding enqueue_resume
enqueue_resume-Resumed m p t flags now a w e = record {
  before =
      (stamp_empty m (effective_tier (some t)) (m.task_cpu a.trace p.address) now
        (put_task p.address (record t { resume_slice = 0 }) w)).trace;
  last = rw e refl;
}

lunar_enqueue_known :
    (m : Machine) (c : Context) (p : Task) (t : TaskCtx) (flags : ℕ) (w : World)
    → get_task_ctx w p ≡ some t
    → has_flag flags scx_enq_wakeup ≡ false
    → lunar_enqueue m c p flags w
      ≡ enqueue_known m p t flags
          (effective_tier (some t))
          (m.clock w.trace)
          (m.task_cpu w.trace p.address)
          (emit (read_clock (m.clock w.trace)) w)
unfolding lunar_enqueue
lunar_enqueue_known m c p t flags w e woken =
    let boosted : World = boost_if (has_flag flags scx_enq_wakeup) c p w in
    let same : boosted ≡ w = rw woken (boost_if_other c p w) in
    let known : get_task_ctx boosted p ≡ some t = rw same e in
    rw (known, lunar_enqueue, known, same) refl

lunar_enqueue-Resumed :
    (m : Machine) (c : Context) (p : Task) (rest flags : ℕ) (w : World)
    → 0 < rest
    → Saved p rest w
    → has_flag flags scx_enq_wakeup ≡ false
    → cpu_taken_by_rt m (emit (read_clock (m.clock w.trace)) w) (m.task_cpu w.trace p.address)
      ≡ false
    → Resumed m p rest flags w (lunar_enqueue m c p flags w)
lunar_enqueue-Resumed m c p rest flags w h s woken free =
    let now : ℕ = m.clock w.trace in
    let cpu : ℕ = m.task_cpu w.trace p.address in
    let w2 : World = emit (read_clock now) w in
    let tier : ℕ = effective_tier (some s.tctx) in
    let known : lunar_enqueue m c p flags w ≡ enqueue_resume m p s.tctx flags tier now cpu w2 =
      lunar_enqueue_known m c p s.tctx flags w s.known woken
      ∙ enqueue_known-Resumed m p s.tctx flags tier now cpu w2 (omega (arith, s.left, h)) free in
    subst (λ v. Resumed m p rest flags w v) (sym known)
      (subst (λ r. Resumed m p r flags w (enqueue_resume m p s.tctx flags tier now cpu w2)) s.left
        (enqueue_resume-Resumed m p s.tctx flags now w w2 s.known))

-- A task that a preemption kick stopped, and that is enqueued again without a wakeup while no realtime task
-- has its cpu, goes to the head of the queue of its effective tier on its own cpu, with what is left of
-- its granted slice, for granted slices below 2^64 of which more than 50us are left.
pub lunar_stopping-lunar_enqueue :
    (m : Machine) (c : Context) (p : Task) (t : TaskCtx) (flags : ℕ) (w : World)
    → Preempted m p t w
    → has_flag flags scx_enq_wakeup ≡ false
    → (let w1 = lunar_stopping m p true w in
        cpu_taken_by_rt m (emit (read_clock (m.clock w1.trace)) w1) (m.task_cpu w1.trace p.address)
        ≡ false)
    → Resumed m p
        (t.granted_slice - elapsed (m.clock w.trace) t.started_at)
        flags
        (lunar_stopping m p true w)
        (lunar_enqueue m c p flags (lunar_stopping m p true w))
lunar_stopping-lunar_enqueue m c p t flags w h woken free =
    lunar_enqueue-Resumed m c p _ flags _ (omega (arith, h.enough)) (lunar_stopping-Saved m p t w h)
      woken free
