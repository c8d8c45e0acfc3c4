-- ===== src/System.antt =====
-- The scheduler as the kernel drives it: one step per callback, or per event that is not the scheduler's.
pub mod Calls
pub mod Woken
use lunar_sched.Base.{ℕ, ◌<◌, ◌^◌, ◌≡◌, Bool, false, Option, none, arith}
use lunar_sched.Boost.{Context}
use lunar_sched.Callbacks.Init.{lunar_init, lunar_init_task}
use lunar_sched.Callbacks.Run.{lunar_dispatch, lunar_running, lunar_stopping}
use lunar_sched.Callbacks.Switch.{lunar_sched_switch}
use lunar_sched.Callbacks.Wakeup.{lunar_select_cpu, lunar_enqueue, lunar_quiescent, lunar_runnable}
use lunar_sched.Datatypes.{Task}
use lunar_sched.Invariant.Placing.{lunar_select_cpu-AllValid, lunar_enqueue-AllValid}
use lunar_sched.Invariant.Rt.{busy}
use lunar_sched.Invariant.Rt.Callbacks.{
  lunar_select_cpu-SameRt, lunar_enqueue-SameRt, lunar_quiescent-SameRt, lunar_runnable-SameRt,
}
use lunar_sched.Invariant.Rt.Count.{
  Counted, SameRt-Counted, lunar_sched_switch-Counted, busy_count-none,
}
use lunar_sched.Invariant.Rt.Running.{
  lunar_dispatch-SameRt, lunar_running-SameRt, lunar_stopping-SameRt, lunar_init-SameRt,
  lunar_init_task-SameRt,
}
use lunar_sched.Invariant.Running.{
  lunar_init-AllValid, lunar_init_task-AllValid, lunar_dispatch-AllValid, lunar_running-AllValid,
  lunar_stopping-AllValid, lunar_sched_switch-AllValid,
}
use lunar_sched.Invariant.Task.{AllValid}
use lunar_sched.Invariant.Tasks.{drop_task-AllValid, emit-AllValid}
use lunar_sched.Invariant.Waking.{lunar_quiescent-AllValid, lunar_runnable-AllValid}
use lunar_sched.Kernel.{Machine, World, Event, emit, drop_task}

-- The callbacks in any order, with any arguments. `exits` is the kernel that frees a task's context;
-- `others` is any event of the kernel in between.
pub data Step (m : Machine) (w : World) : World → Type 0 where
  inits : Step m w (lunar_init m w).1
  inits_task : (p : Task) → Step m w (lunar_init_task m p w).1
  selects_cpu : (c : Context) (p : Task) (flags : ℕ) → Step m w (lunar_select_cpu m c p flags w).1
  enqueues : (c : Context) (p : Task) (flags : ℕ) → Step m w (lunar_enqueue m c p flags w)
  dispatches : (cpu : ℕ) (prev : Option Task) → Step m w (lunar_dispatch m cpu prev w)
  runs : (c : Context) (p : Task) → Step m w (lunar_running m c p w)
  stops : (p : Task) (runnable : Bool) → Step m w (lunar_stopping m p runnable w)
  blocks : (p : Task) (flags : ℕ) → Step m w (lunar_quiescent m p flags w)
  wakes : (c : Context) (p : Task) (flags : ℕ) → Step m w (lunar_runnable m c p flags w)
  switches :
      (cpu : ℕ) (next : Task) → cpu < m.nr_cpu_ids → Step m w (lunar_sched_switch m cpu next w)
  exits : (p : Task) → Step m w (drop_task p.address w)
  others : (e : Event) → Step m w (emit e w)

pub data Reachable (m : Machine) (w : World) : World → Type 0 where
  start : Reachable m w w
  more : {a b : World} → Reachable m w a → Step m a b → Reachable m w b

-- A loaded program: no task has a context, and no cpu's realtime flag is set.
pub record Loaded (w : World) : Type 0 where
  pub no_tasks : (a : ℕ) → w.tasks a ≡ none
  pub no_rt : (c : ℕ) → busy (w.cpus c) ≡ false
  pub none_counted : w.nr_rt_busy ≡ 0

pub Step-AllValid : (m : Machine) (a b : World) → Step m a b → AllValid a → AllValid b
Step-AllValid m a b inits all = lunar_init-AllValid m a all
Step-AllValid m a b (inits_task p) all = lunar_init_task-AllValid m p a all
Step-AllValid m a b (selects_cpu c p flags) all = lunar_select_cpu-AllValid m c p flags a all
Step-AllValid m a b (enqueues c p flags) all = lunar_enqueue-AllValid m c p flags a all
Step-AllValid m a b (dispatches cpu prev) all = lunar_dispatch-AllValid m cpu prev a all
Step-AllValid m a b (runs c p) all = lunar_running-AllValid m c p a all
Step-AllValid m a b (stops p runnable) all = lunar_stopping-AllValid m p runnable a all
Step-AllValid m a b (blocks p flags) all = lunar_quiescent-AllValid m p flags a all
Step-AllValid m a b (wakes c p flags) all = lunar_runnable-AllValid m c p flags a all
Step-AllValid m a b (switches cpu next h) all = lunar_sched_switch-AllValid m cpu next a all
Step-AllValid m a b (exits p) all = drop_task-AllValid p.address a all
Step-AllValid m a b (others e) all = emit-AllValid e a all

Step-Counted : (m : Machine) (a b : World) → Step m a b → Counted m a → Counted m b
Step-Counted m a b inits k = SameRt-Counted m a _ (lunar_init-SameRt m a) k
Step-Counted m a b (inits_task p) k = SameRt-Counted m a _ (lunar_init_task-SameRt m p a) k
Step-Counted m a b (selects_cpu c p flags) k =
    SameRt-Counted m a _ (lunar_select_cpu-SameRt m c p flags a) k
Step-Counted m a b (enqueues c p flags) k =
    SameRt-Counted m a _ (lunar_enqueue-SameRt m c p flags a) k
Step-Counted m a b (dispatches cpu prev) k =
    SameRt-Counted m a _ (lunar_dispatch-SameRt m cpu prev a) k
Step-Counted m a b (runs c p) k = SameRt-Counted m a _ (lunar_running-SameRt m c p a) k
Step-Counted m a b (stops p runnable) k =
    SameRt-Counted m a _ (lunar_stopping-SameRt m p runnable a) k
Step-Counted m a b (blocks p flags) k = SameRt-Counted m a _ (lunar_quiescent-SameRt m p flags a) k
Step-Counted m a b (wakes c p flags) k =
    SameRt-Counted m a _ (lunar_runnable-SameRt m c p flags a) k
Step-Counted m a b (switches cpu next h) k = lunar_sched_switch-Counted m cpu next a h k
Step-Counted m a b (exits p) k = record { exact = k.exact; few = k.few }
Step-Counted m a b (others e) k = record { exact = k.exact; few = k.few }

-- Whatever callbacks have run since the program was loaded, in any order, the context of every task is
-- valid: its tier, boost, duty, samples, sums, intervals and score are in their ranges.
pub Reachable-AllValid : (m : Machine) (w w' : World) → Loaded w → Reachable m w w' → AllValid w'
Reachable-AllValid m w w' h start = record {
  each = λ a t e. absurd (ground (arith, e, h.no_tasks a));
}
Reachable-AllValid m w w' h (more r s) = Step-AllValid m _ _ s (Reachable-AllValid m w _ h r)

-- Whatever callbacks have run since the program was loaded, in any order, `nr_rt_busy` is the number of
-- cpus whose realtime flag is set, for machines of fewer than 2^32 cpus.
pub Reachable-Counted :
    (m : Machine) (w w' : World)
    → Loaded w
    → m.nr_cpu_ids < 2 ^ 32
    → Reachable m w w'
    → Counted m w'
Reachable-Counted m w w' h few start = record {
  exact = ground (arith, h.none_counted, busy_count-none m.nr_cpu_ids w.cpus h.no_rt);
  few = few;
}
Reachable-Counted m w w' h few (more r s) = Step-Counted m _ _ s (Reachable-Counted m w _ h few r)
