-- ===== src/Invariant/Calls/Running.antt =====
-- The calls of the other callbacks.
use lunar_sched.Base.{
  ℕ, zero, suc, ◌+◌, ◌<◌, ◌≡◌, refl, ◌∙◌, inl, inr, Bool, Option, none, some, arith, Option-cases,
  if_cases, ◌==◌, ltb,
}
use lunar_sched.Base.Int.{ℤ, pos, negsuc}
use lunar_sched.Boost.{Context, record_wake_by, record_waker}
use lunar_sched.Callbacks.Init.{lunar_init_task}
use lunar_sched.Callbacks.Run.{
  continue_prev, dispatch_after, dispatch_prev, dispatch_fresh, dispatch_queued, lunar_dispatch,
  run_on, lunar_running, stop_on, lunar_stopping,
}
use lunar_sched.Callbacks.Switch.{note_switch, leave_cpu, lunar_sched_switch}
use lunar_sched.Callbacks.Wakeup.{
  runnable_slept, lunar_quiescent, lunar_runnable, has_flag, scx_enq_wakeup,
}
use lunar_sched.Cpus.{get_task_ctx, get_dispatch_ctx, is_rt_task}
use lunar_sched.Datatypes.{Task, TaskCtx, DispatchCtx}
use lunar_sched.Defines.{slice_ns, dsq_type_empty}
use lunar_sched.Dispatch.Kick.{kick_found, kick_for, kick_tiers, kick_idle_for_waiting}
use lunar_sched.Dispatch.Order.{dispatch_dsq_per_cpu}
use lunar_sched.Dsq.{get_cpu_dsq_from_type}
use lunar_sched.Invariant.Calls.{Ordered, emit-Ordered, same_trace, Answers, modify_cpu-Ordered}
use lunar_sched.Invariant.Calls.Taking.{dispatch_dsq_per_cpu-Ordered}
use lunar_sched.Kernel.{Machine, World, emit, set_slice, read_clock}
use lunar_sched.Tier.{effective_tier}

continue_prev-Ordered :
    (m : Machine) (p : Task) (t : TaskCtx) (cpu tier : ℕ) (w : World)
    → Ordered m w
    → Ordered m (continue_prev p t cpu tier w)
unfolding continue_prev
continue_prev-Ordered m p t cpu tier w h =
    modify_cpu-Ordered m cpu _ _
      (same_trace m _ _ refl (emit-Ordered m (set_slice p.address slice_ns) w (omega arith) h))

module _ (m : Machine) (cpu : ℕ) (below : cpu < m.nr_cpu_ids) where
  dispatch_after-Ordered :
      (p : Task) (t : TaskCtx) (w : World) → Ordered m w → Ordered m (dispatch_after m cpu p t w)
  unfolding dispatch_after
  dispatch_after-Ordered p t w h =
      let taken = dispatch_dsq_per_cpu-Ordered m cpu below (effective_tier (some t)) w h in
      if_cases (Ordered m)
        ((dispatch_dsq_per_cpu m cpu (effective_tier (some t)) w).0 == dsq_type_empty) _ _
        (λ _. continue_prev-Ordered m p t cpu _ _ taken) (λ _. taken)

  dispatch_prev-Ordered :
      (p : Task) (t : TaskCtx) (w : World) → Ordered m w → Ordered m (dispatch_prev m cpu p t w)
  unfolding dispatch_prev
  dispatch_prev-Ordered p t w h =
      dispatch_after-Ordered p _ _
        (same_trace m _ _ refl (modify_cpu-Ordered m cpu _ _ (emit-Ordered m _ w tt h)))

  dispatch_queued-Ordered :
      (p : Task) (w : World) → Ordered m w → Ordered m (dispatch_queued m cpu p w)
  unfolding dispatch_queued dispatch_fresh
  dispatch_queued-Ordered p w h =
      let fresh = dispatch_dsq_per_cpu-Ordered m cpu below 5 w h in
      elim (Option-cases (get_task_ctx w p)) [
        | inl e ↦
            rw (e, dispatch_queued) (if_cases (Ordered m) p.queued _ _ (λ _. fresh) (λ _. fresh))
        | inr (t, e) ↦
            rw (e, dispatch_queued)
              (if_cases (Ordered m) p.queued _ _ (λ _. dispatch_prev-Ordered p t w h) (λ _. fresh))
      ]

  pub lunar_dispatch-Ordered :
      (prev : Option Task) (w : World) → Ordered m w → Ordered m (lunar_dispatch m cpu prev w)
  unfolding lunar_dispatch dispatch_fresh
  lunar_dispatch-Ordered none w h = dispatch_dsq_per_cpu-Ordered m cpu below 5 w h
  lunar_dispatch-Ordered (some p) w h = dispatch_queued-Ordered p w h

pub lunar_init_task-Ordered :
    (m : Machine) (p : Task) (w : World) → Ordered m w → Ordered m (lunar_init_task m p w).1
unfolding lunar_init_task
lunar_init_task-Ordered m p w h = ground (arith, h.calls)

pub lunar_running-Ordered :
    (m : Machine) (c : Context) (p : Task) (w : World)
    → Ordered m w
    → Ordered m (lunar_running m c p w)
unfolding lunar_running run_on
lunar_running-Ordered m c p w h = elim (Option-cases (get_task_ctx w p)) [
  | inl e ↦ rw (e, lunar_running) h
  | inr (t, e) ↦ (elim (Option-cases (get_dispatch_ctx w c.cpu)) [
    | inl n ↦ rw (e, lunar_running) (rw (n, lunar_running) h)
    | inr (d, n) ↦
        rw (e, lunar_running)
          (rw (n, lunar_running)
            (same_trace m (emit (read_clock (m.clock w.trace)) w) _ refl (emit-Ordered m _ w tt h)))
  ])
]

stop_on-Ordered :
    (m : Machine) (p : Task) (runnable : Bool) (t : TaskCtx) (now cpu : ℕ) (o : Option DispatchCtx)
    (w : World)
    → Ordered m w
    → Ordered m (stop_on p runnable t now cpu o w)
unfolding stop_on
stop_on-Ordered m p runnable t now cpu none w h = same_trace m w _ refl h
stop_on-Ordered m p runnable t now cpu (some d) w h = same_trace m w _ refl h

pub lunar_stopping-Ordered :
    (m : Machine) (p : Task) (runnable : Bool) (w : World)
    → Ordered m w
    → Ordered m (lunar_stopping m p runnable w)
unfolding lunar_stopping
lunar_stopping-Ordered m p runnable w h = elim (Option-cases (get_task_ctx w p)) [
  | inl e ↦ rw (e, lunar_stopping) (emit-Ordered m _ _ tt h)
  | inr (t, e) ↦
      rw (e, lunar_stopping) (stop_on-Ordered m p runnable t _ _ _ _ (emit-Ordered m _ _ tt h))
]

pub lunar_quiescent-Ordered :
    (m : Machine) (p : Task) (flags : ℕ) (w : World)
    → Ordered m w
    → Ordered m (lunar_quiescent m p flags w)
unfolding lunar_quiescent
lunar_quiescent-Ordered m p flags w h = elim (Option-cases (get_task_ctx w p)) [
  | inl e ↦ rw (e, lunar_quiescent) h
  | inr (t, e) ↦ rw (e, lunar_quiescent) (ground (arith, h.calls))
]

record_waker-trace :
    (c : Context) (p : Task) (now : ℕ) (w : World) → (record_waker c p now w).trace ≡ w.trace
unfolding record_waker record_wake_by
record_waker-trace c p now w = ground arith

runnable_slept-trace : (p : Task) (now : ℕ) (w : World) → (runnable_slept p now w).trace ≡ w.trace
unfolding runnable_slept
runnable_slept-trace p now w = ground arith

pub lunar_runnable-Ordered :
    (m : Machine) (c : Context) (p : Task) (flags : ℕ) (w : World)
    → Ordered m w
    → Ordered m (lunar_runnable m c p flags w)
unfolding lunar_runnable
lunar_runnable-Ordered m c p flags w h = elim (Option-cases (get_task_ctx w p)) [
  | inl e ↦ rw (e, lunar_runnable) (emit-Ordered m _ _ tt h)
  | inr (t, e) ↦
      rw (e, lunar_runnable)
        (if_cases (Ordered m) (has_flag flags scx_enq_wakeup) _ _
          (λ _.
            same_trace m _ _ (runnable_slept-trace p _ _ ∙ record_waker-trace c p _ _)
              (emit-Ordered m (read_clock (m.clock w.trace)) w tt h))
          (λ _. same_trace m _ _ (runnable_slept-trace p _ _) (emit-Ordered m _ w tt h)))
]

module _ (m : Machine) (k : Answers m) where
  kick_found-Ordered :
      (w : World) (idle : ℤ)
      → ((c : ℕ) → idle ≡ pos c → c < m.nr_cpu_ids)
      → Ordered m w
      → Ordered m (kick_found w idle)
  unfolding kick_found
  kick_found-Ordered w (pos idle) inside h = emit-Ordered m _ w (inside idle refl) h
  kick_found-Ordered w (negsuc n) inside h = h

  kick_for-Ordered : (p : Task) (w : World) → Ordered m w → Ordered m (kick_for m w p)
  unfolding kick_for
  kick_for-Ordered p w h =
      kick_found-Ordered _ _ (k.idle_below w.trace p.address) (emit-Ordered m _ w tt h)

  kick_tiers-Ordered :
      (cpu rounds tier : ℕ) (w : World) → Ordered m w → Ordered m (kick_tiers m cpu rounds tier w)
  unfolding kick_tiers
  kick_tiers-Ordered cpu zero tier w h = h
  kick_tiers-Ordered cpu (suc rounds) tier w h =
      let rest = kick_tiers-Ordered cpu rounds (tier + 1) w h in
      elim (Option-cases (m.head_of w.trace (get_cpu_dsq_from_type tier cpu))) [
        | inl e ↦ rw (e, kick_tiers) rest
        | inr (p, e) ↦
            rw (e, kick_tiers)
              (if_cases (Ordered m) (ltb 1 p.nr_cpus_allowed) _ _ (λ _. kick_for-Ordered p w h)
                (λ _. rest))
      ]

  leave_cpu-Ordered : (cpu : ℕ) (w : World) → Ordered m w → Ordered m (leave_cpu m cpu w)
  unfolding leave_cpu kick_idle_for_waiting
  leave_cpu-Ordered cpu w h = kick_tiers-Ordered cpu 4 1 _ (ground (arith, h.calls))

  pub lunar_sched_switch-Ordered :
      (cpu : ℕ) (next : Task) (w : World)
      → Ordered m w
      → Ordered m (lunar_sched_switch m cpu next w)
  unfolding lunar_sched_switch note_switch
  lunar_sched_switch-Ordered cpu next w h = elim (Option-cases (get_dispatch_ctx w cpu)) [
    | inl e ↦ rw (e, lunar_sched_switch) h
    | inr (d, e) ↦
        let noted : Ordered m (note_switch cpu (is_rt_task next) d w) = record {
          calls = ground (arith, h.calls);
        } in
        rw (e, lunar_sched_switch)
          (if_cases (Ordered m) (is_rt_task next) _ _ (λ _. leave_cpu-Ordered cpu _ noted)
            (λ _. noted))
  ]
