-- ===== src/Callbacks/Continue.antt =====
-- What `lunar_dispatch` does for a cpu whose previous task can go on, and what it and `lunar_stopping` leave of
-- a wake boost.
use lunar_sched.Base.{
  ℕ, Bool, ◌<◌, ◌≤◌, ◌≡◌, refl, sym, ap, subst, ◌∙◌, ◌⊎◌, inl, inr, true, false, Option, some, ◌∷◌,
  arith, ◌==◌, ==-self,
}
use lunar_sched.Callbacks.Run.{
  end_boost_if, stop_slice, stop_on, lunar_stopping, continue_prev, dispatch_after, dispatch_prev,
  dispatch_queued, lunar_dispatch,
}
use lunar_sched.Cpus.{get_task_ctx}
use lunar_sched.Datatypes.{Task, TaskCtx, DispatchCtx}
use lunar_sched.Defines.{wake_boost_budget_ns, dsq_type_empty, slice_ns}
use lunar_sched.Dispatch.Accounting.{
  moves_of, modify_cpu-trace, TookOne, dispatch_dsq_per_cpu_moves,
}
use lunar_sched.Dispatch.Continue.{dispatch_dsq_per_cpu_ends}
use lunar_sched.Dispatch.Order.{dispatch_dsq_per_cpu}
use lunar_sched.Dsq.{get_cpu_dsq_from_type}
use lunar_sched.Invariant.Tasks.{modify_cpu-tasks}
use lunar_sched.Kernel.{Machine, World, Trace, set_slice, read_clock, emit, put_task}
use lunar_sched.Tier.Target.{IsTier}
use lunar_sched.Tier.{effective_tier}

effective_tier_low : (t : TaskCtx) → effective_tier (some t) ≤ 4
unfolding effective_tier
effective_tier_low t = ground arith

-- No boost, or one that is not used up.
abbrev pub Unspent : TaskCtx → Type 0
Unspent t = (t.boost_dsq_type ≡ dsq_type_empty) ⊎ (t.boost_used < wake_boost_budget_ns)

-- The task has a new slice, and no task was taken.
pub record Continued (p : Task) (w w' : World) : Type 0 where
  pub before : Trace
  pub last : w'.trace ≡ set_slice p.address slice_ns ∷ before
  pub untaken : moves_of before ≡ moves_of w.trace
  pub tctx : TaskCtx
  pub known : get_task_ctx w' p ≡ some tctx
  pub granted : tctx.granted_slice ≡ slice_ns
  pub unspent : Unspent tctx

abbrev pub Served : Machine → ℕ → World → World → Type 0
Served m cpu w w' = (tier : ℕ) × IsTier tier × TookOne m cpu tier w w'

put_task-tasks : (a : ℕ) (t : TaskCtx) (w : World) → (put_task a t w).tasks a ≡ some t
put_task-tasks a t w = rw (==-self a) refl

continue_prev-Continued :
    (p : Task) (t : TaskCtx) (cpu tier : ℕ) (a w : World)
    → moves_of w.trace ≡ moves_of a.trace
    → Continued p a (continue_prev p t cpu tier w)
unfolding continue_prev end_boost_if
continue_prev-Continued p t cpu tier a w h = record {
  before = w.trace;
  last = modify_cpu-trace cpu _ _;
  untaken = h;
  tctx = _;
  known =
      ap (λ (f : ℕ → Option TaskCtx). f p.address) (modify_cpu-tasks cpu _ _)
      ∙ put_task-tasks p.address _ (emit (set_slice p.address slice_ns) w);
  granted = ground arith;
  unspent = ground arith;
}

dispatch_after_goes_on :
    (m : Machine) (cpu : ℕ) (p : Task) (t : TaskCtx) (a w : World)
    → moves_of w.trace ≡ moves_of a.trace
    → Served m cpu a (dispatch_after m cpu p t w) ⊎ Continued p a (dispatch_after m cpu p t w)
unfolding dispatch_after
dispatch_after_goes_on m cpu p t a w h =
    let tier : ℕ = effective_tier (some t) in
    let ends = dispatch_dsq_per_cpu_ends m cpu tier w (effective_tier_low t) in
    elim (dispatch_dsq_per_cpu_moves m cpu tier w) [
      | inl (taken, (c, src, moved)) ↦
          let goes : ((dispatch_dsq_per_cpu m cpu tier w).0 == dsq_type_empty) ≡ false =
            ground (arith, taken) in
          rw goes (
            inl (
              (dispatch_dsq_per_cpu m cpu tier w).0,
              taken,
              (
                c,
                src,
                moved ∙ ap (◌∷◌ (get_cpu_dsq_from_type (dispatch_dsq_per_cpu m cpu tier w).0 c)) h,
              ),
            ))
      | inr (none, still) ↦
          let empty : ((dispatch_dsq_per_cpu m cpu tier w).0 == dsq_type_empty) ≡ true =
            ground (arith, none, ends) in
          rw empty (inr (continue_prev-Continued p t cpu tier a _ (still ∙ h)))
    ]

dispatch_prev_goes_on :
    (m : Machine) (cpu : ℕ) (p : Task) (t : TaskCtx) (w : World)
    → Served m cpu w (dispatch_prev m cpu p t w) ⊎ Continued p w (dispatch_prev m cpu p t w)
unfolding dispatch_prev
dispatch_prev_goes_on m cpu p t w =
    dispatch_after_goes_on m cpu p _ w _ (ap moves_of (modify_cpu-trace cpu _ _))

lunar_dispatch-dispatch_prev :
    (m : Machine) (cpu : ℕ) (p : Task) (t : TaskCtx) (w : World)
    → p.queued ≡ true
    → get_task_ctx w p ≡ some t
    → lunar_dispatch m cpu (some p) w ≡ dispatch_prev m cpu p t w
unfolding lunar_dispatch dispatch_queued
lunar_dispatch-dispatch_prev m cpu p t w queued known = ground (arith, queued, known)

-- A cpu whose previous task is still queued and has a context always has something to run next: `lunar_dispatch`
-- moves exactly one task to it, from a queue of its own or of another online cpu, or it gives the previous task
-- a new slice and moves none; a wake boost that has used up its budget is then over.
pub lunar_dispatch_goes_on :
    (m : Machine) (cpu : ℕ) (p : Task) (t : TaskCtx) (w : World)
    → p.queued ≡ true
    → get_task_ctx w p ≡ some t
    → Served m cpu w (lunar_dispatch m cpu (some p) w)
      ⊎ Continued p w (lunar_dispatch m cpu (some p) w)
lunar_dispatch_goes_on m cpu p t w queued known =
    subst (λ v. Served m cpu w v ⊎ Continued p w v)
      (sym (lunar_dispatch-dispatch_prev m cpu p t w queued known))
      (dispatch_prev_goes_on m cpu p t w)

-- The context that `lunar_stopping` leaves: a boost that is used up goes on only for the rest of a preempted slice.
pub record Stopped (p : Task) (w : World) : Type 0 where
  pub tctx : TaskCtx
  pub known : get_task_ctx w p ≡ some tctx
  pub unspent : tctx.resume_slice ≡ 0 → Unspent tctx

stop_slice-Unspent :
    (d : DispatchCtx) (runnable : Bool) (slice used : ℕ) (t : TaskCtx)
    → (stop_slice d runnable slice used t).resume_slice ≡ 0
    → Unspent (stop_slice d runnable slice used t)
unfolding stop_slice end_boost_if
stop_slice-Unspent d runnable slice used t h = ground (arith, h)

stop_on-Stopped :
    (p : Task) (runnable : Bool) (t : TaskCtx) (now cpu : ℕ) (d : DispatchCtx) (w : World)
    → Stopped p (stop_on p runnable t now cpu (some d) w)
unfolding stop_on
stop_on-Stopped p runnable t now cpu d w = record {
  tctx = _;
  known = put_task-tasks p.address _ w;
  unspent = stop_slice-Unspent _ runnable p.slice _ _;
}

-- When a task stops on a cpu with a context, a wake boost that has used up its budget ends, unless the task was
-- preempted and the rest of its slice is kept for it.
pub lunar_stopping-Stopped :
    (m : Machine) (p : Task) (runnable : Bool) (t : TaskCtx) (d : DispatchCtx) (w : World)
    → get_task_ctx w p ≡ some t
    → w.cpus (m.task_cpu (read_clock (m.clock w.trace) ∷ w.trace) p.address) ≡ some d
    → Stopped p (lunar_stopping m p runnable w)
unfolding lunar_stopping
lunar_stopping-Stopped m p runnable t d w known cpu =
    rw (known, lunar_stopping) (rw cpu (stop_on-Stopped p runnable t _ _ d _))
