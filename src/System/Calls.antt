-- ===== src/System/Calls.antt =====
-- The calls of the kernel in the worlds that the callbacks reach.
use lunar_sched.Base.{ℕ, ◌<◌, ◌≡◌, refl, ◌⊎◌, inl, inr, [], ◌∷◌}
use lunar_sched.Base.Int.{pos}
use lunar_sched.Callbacks.Init.{lunar_init}
use lunar_sched.Dsq.{scx_dsq_local}
use lunar_sched.Invariant.Calls.{
  Answers, InOrder, AllInOrder, Ordered, IsQueue, emit-Ordered, same_trace,
}
use lunar_sched.Invariant.Calls.Created.{Made, lunar_init-Made}
use lunar_sched.Invariant.Calls.Init.{lunar_init-Ordered}
use lunar_sched.Invariant.Calls.Placing.{lunar_select_cpu-Ordered, lunar_enqueue-Ordered}
use lunar_sched.Invariant.Calls.Running.{
  lunar_dispatch-Ordered, lunar_init_task-Ordered, lunar_running-Ordered, lunar_stopping-Ordered,
  lunar_quiescent-Ordered, lunar_runnable-Ordered, lunar_sched_switch-Ordered,
}
use lunar_sched.Invariant.Running.{lunar_init-AllValid}
use lunar_sched.Invariant.Task.{AllValid}
use lunar_sched.Kernel.{
  Machine, World, Event, Trace, dsq_insert, move_to_local, create_dsq, kick_cpu, clear_idle,
  set_slice, pick_idle, select_cpu, read_clock, draw_random, reenqueue_local,
}
use lunar_sched.System.{
  Step, Reachable, inits, inits_task, selects_cpu, enqueues, dispatches, runs, stops, blocks, wakes,
  switches, exits, others, start, more, Loaded, Step-AllValid, Reachable-AllValid,
}

-- The events that are not the scheduler's: those that name no queue, no cpu to wake and no slice.
abbrev pub Foreign : Event → Type 0
Foreign (dsq_insert task dsq slice flags) = ⊥
Foreign (move_to_local dsq moved) = ⊥
Foreign (create_dsq dsq answer) = ⊥
Foreign (kick_cpu cpu flags) = ⊥
Foreign (clear_idle cpu) = ⊥
Foreign (set_slice task slice) = ⊥
Foreign _ = Unit {0}

Foreign-InOrder : (m : Machine) (e : Event) → Foreign e → InOrder m e
Foreign-InOrder m (dsq_insert task dsq slice flags) h = absurd h
Foreign-InOrder m (move_to_local dsq moved) h = absurd h
Foreign-InOrder m (create_dsq dsq answer) h = absurd h
Foreign-InOrder m (kick_cpu cpu flags) h = absurd h
Foreign-InOrder m (clear_idle cpu) h = absurd h
Foreign-InOrder m (set_slice task slice) h = absurd h
Foreign-InOrder m (pick_idle task answer) h = tt
Foreign-InOrder m (select_cpu task answer) h = tt
Foreign-InOrder m (read_clock now) h = tt
Foreign-InOrder m (draw_random n) h = tt
Foreign-InOrder m reenqueue_local h = tt

-- A dispatch is for a cpu of the machine.
abbrev pub Plain : {m : Machine} {w w' : World} → Step m w w' → Type 0
Plain {m} (dispatches cpu prev) = cpu < m.nr_cpu_ids
Plain (others e) = Foreign e
Plain _ = Unit {0}

abbrev pub AllPlain : {m : Machine} {w w' : World} → Reachable m w w' → Type 0
AllPlain start = Unit {0}
AllPlain (more r s) = AllPlain r × Plain s

Step-Ordered :
    (m : Machine) (a b : World) (s : Step m a b)
    → Answers m
    → Plain s
    → AllValid a
    → Ordered m a
    → Ordered m b
Step-Ordered m a b inits k plain all h = lunar_init-Ordered m a h
Step-Ordered m a b (inits_task p) k plain all h = lunar_init_task-Ordered m p a h
Step-Ordered m a b (selects_cpu c p flags) k plain all h = lunar_select_cpu-Ordered m c p flags a h
Step-Ordered m a b (enqueues c p flags) k plain all h = lunar_enqueue-Ordered m k c p flags a all h
Step-Ordered m a b (dispatches cpu prev) k plain all h = lunar_dispatch-Ordered m cpu plain prev a h
Step-Ordered m a b (runs c p) k plain all h = lunar_running-Ordered m c p a h
Step-Ordered m a b (stops p runnable) k plain all h = lunar_stopping-Ordered m p runnable a h
Step-Ordered m a b (blocks p flags) k plain all h = lunar_quiescent-Ordered m p flags a h
Step-Ordered m a b (wakes c p flags) k plain all h = lunar_runnable-Ordered m c p flags a h
Step-Ordered m a b (switches cpu next below) k plain all h =
    lunar_sched_switch-Ordered m k cpu next a h
Step-Ordered m a b (exits p) k plain all h = same_trace m a _ refl h
Step-Ordered m a b (others e) k plain all h = emit-Ordered m e a (Foreign-InOrder m e plain) h

-- The invariant of the contexts and that of the calls, along any steps.
Reachable-Tidy :
    (m : Machine) (a b : World) (r : Reachable m a b)
    → Answers m
    → AllPlain r
    → AllValid a
    → Ordered m a
    → AllValid b × Ordered m b
Reachable-Tidy m a b start k plain all h = (all, h)
Reachable-Tidy m a b (more {a = c} r s) k plain all h =
    let (valid, calls) = Reachable-Tidy m a c r k plain.0 all h in
    (Step-AllValid m c b s valid, Step-Ordered m c b s k plain.1 valid calls)

-- What a call names exists: a queue is the local one, or was created with success before, and a cpu that is
-- kicked or taken is one of the machine. A slice that is granted is not empty.
abbrev pub Exists : Machine → Trace → Event → Type 0
Exists m before (dsq_insert task dsq slice flags) =
    ((dsq ≡ scx_dsq_local) ⊎ Made dsq before) × (0 < slice)
Exists m before (move_to_local dsq moved) = Made dsq before
Exists m before (kick_cpu cpu flags) = cpu < m.nr_cpu_ids
Exists m before (clear_idle cpu) = cpu < m.nr_cpu_ids
Exists m before (set_slice task slice) = 0 < slice
Exists m before _ = Unit {0}

abbrev pub AllExist : Machine → Trace → Trace → Type 0
AllExist m before [] = Unit {0}
AllExist m before (e ∷ t) = Exists m before e × AllExist m before t

module _ (m : Machine) (before : Trace) (made : (dsq : ℕ) → IsQueue m dsq → Made dsq before) where
  InOrder-Exists : (e : Event) → InOrder m e → Exists m before e
  InOrder-Exists (dsq_insert task dsq slice flags) (inl local, some_left) = (inl local, some_left)
  InOrder-Exists (dsq_insert task dsq slice flags) (inr q, some_left) =
      (inr (made dsq q), some_left)
  InOrder-Exists (move_to_local dsq moved) h = made dsq h
  InOrder-Exists (kick_cpu cpu flags) h = h
  InOrder-Exists (clear_idle cpu) h = h
  InOrder-Exists (set_slice task slice) h = h
  InOrder-Exists (create_dsq dsq answer) h = tt
  InOrder-Exists (pick_idle task answer) h = tt
  InOrder-Exists (select_cpu task answer) h = tt
  InOrder-Exists (read_clock now) h = tt
  InOrder-Exists (draw_random n) h = tt
  InOrder-Exists reenqueue_local h = tt

  AllInOrder-AllExist : (t : Trace) → AllInOrder m t → AllExist m before t
  AllInOrder-AllExist [] h = tt
  AllInOrder-AllExist (e ∷ t) h = (InOrder-Exists e h.0, AllInOrder-AllExist t h.1)

-- Once `lunar_init` has succeeded on a loaded program that has made no call yet, whatever callbacks follow, in
-- any order, with cpus of the machine, every insertion and every move names the local queue or a queue that
-- `lunar_init` has created with success, every cpu that is kicked or claimed exists, and every slice that is
-- granted is positive. The kernel answers with cpus that exist, of which there are at most 2^31.
pub Reachable-AllExist :
    (m : Machine) (w w' : World) (r : Reachable m (lunar_init m w).1 w')
    → Loaded w
    → w.trace ≡ []
    → Answers m
    → (lunar_init m w).0 ≡ pos 0
    → AllPlain r
    → AllExist m (lunar_init m w).1.trace w'.trace
Reachable-AllExist m w w' r loaded silent k done plain =
    let ready : World = (lunar_init m w).1 in
    let valid : AllValid w = Reachable-AllValid m w w loaded start in
    let begun : Ordered m w = record { calls = rw silent tt } in
    let (_, calls) =
      Reachable-Tidy m ready w' r k plain (lunar_init-AllValid m w valid)
        (lunar_init-Ordered m w begun) in
    AllInOrder-AllExist m ready.trace (λ dsq q. lunar_init-Made m w dsq done q) w'.trace calls.calls
