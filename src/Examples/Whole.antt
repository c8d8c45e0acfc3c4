-- ===== src/Examples/Whole.antt =====
-- Callbacks and runs of callbacks.
use lunar_sched.Base.{ℕ, ◌-◌, ◌≡◌, ◌⊎◌, refl, [], false, true, arith, some, none}
use lunar_sched.Boost.Wake.{Lent, apply_wake_boost_lem}
use lunar_sched.Boost.{Context, apply_wake_boost}
use lunar_sched.Callbacks.Init.{lunar_init_task, lunar_init, init_queues, create_queues, init_cpus}
use lunar_sched.Callbacks.Resume.{Preempted, Resumed, lunar_stopping-lunar_enqueue}
use lunar_sched.Callbacks.Run.{lunar_stopping, lunar_dispatch}
use lunar_sched.Cpus.{cpu_taken_by_rt}
use lunar_sched.Crit.{elapsed}
use lunar_sched.Callbacks.Switch.{lunar_sched_switch}
use lunar_sched.Callbacks.Wakeup.Enqueue.{Enqueued, lunar_enqueue-Enqueued}
use lunar_sched.Callbacks.Continue.{Served, Continued, lunar_dispatch_goes_on}
use lunar_sched.Callbacks.Wakeup.{lunar_enqueue, has_flag, scx_enq_wakeup}
use lunar_sched.Datatypes.{TaskCtx, Task, DispatchCtx}
use lunar_sched.Examples.Sample.{machine, half_busy, runs_normal, busy_world, player, fifo_task}
use lunar_sched.Invariant.Rt.Count.{Counted}
use lunar_sched.Invariant.Task.{AllValid}
use lunar_sched.Kernel.{World}
use lunar_sched.System.{
  Reachable, Loaded, start, more, inits_task, enqueues, switches, dispatches, Reachable-AllValid,
  Reachable-Counted,
}
use lunar_sched.System.Calls.{AllPlain, AllExist, Reachable-AllExist}
use lunar_sched.Invariant.Calls.{Answers}
use lunar_sched.Base.Int.{pos}

-- `player` is woken on cpu 0 by another task, which has a context.
abbrev waker : Task
waker = record player { address = 2; pid = 101 }

abbrev in_waker : Context
in_waker = record { cpu = 0; in_task = true; in_interrupt = false; current = some waker }

abbrev spent : DispatchCtx
spent = record runs_normal { override_tier = 3; override_left = 1_000_000 }

apply_wake_boost_lem_example :
    (apply_wake_boost in_waker busy_world player half_busy ≡ half_busy)
    ⊎ Lent in_waker busy_world player half_busy
        (apply_wake_boost in_waker busy_world player half_busy)
apply_wake_boost_lem_example = apply_wake_boost_lem in_waker busy_world player half_busy

lunar_enqueue-Enqueued_example :
    Enqueued machine in_waker player 1 busy_world
      (lunar_enqueue machine in_waker player 1 busy_world)
lunar_enqueue-Enqueued_example = lunar_enqueue-Enqueued machine in_waker player 1 busy_world

-- `player` has run on cpu 0, and is still queued.
abbrev ran_world : World
ran_world = record {
  maps = record {
    tasks = λ a. some half_busy;
    cpus = λ c. some runs_normal;
    scratch = none;
    nr_rt_busy = 0;
  };
  trace = [];
}

lunar_dispatch_goes_on_example :
    Served machine 0 ran_world (lunar_dispatch machine 0 (some player) ran_world)
    ⊎ Continued player ran_world (lunar_dispatch machine 0 (some player) ran_world)
lunar_dispatch_goes_on_example =
    lunar_dispatch_goes_on machine 0 player half_busy ran_world refl refl

loaded : Loaded busy_world
loaded = record { no_tasks = λ a. refl; no_rt = λ c. ground arith; none_counted = refl }

-- A task starts, is woken, and a SCHED_FIFO task takes cpu 2.
abbrev after_three : World
after_three =
    lunar_sched_switch machine 2 fifo_task
      (lunar_enqueue machine in_waker player 1 (lunar_init_task machine player busy_world).1)

three_steps : Reachable machine busy_world after_three
three_steps =
    more (more (more start (inits_task player)) (enqueues in_waker player 1))
      (switches 2 fifo_task (omega arith))

Reachable-AllValid_example : AllValid after_three
Reachable-AllValid_example = Reachable-AllValid machine busy_world after_three loaded three_steps

Reachable-Counted_example : Counted machine after_three
Reachable-Counted_example =
    Reachable-Counted machine busy_world after_three loaded (omega arith) three_steps

-- The queues are created, a task starts and is woken, and cpu 0 looks for a task.
ready : (lunar_init machine busy_world).0 ≡ pos 0
unfolding lunar_init init_queues create_queues init_cpus
ready = refl

abbrev after_init : World
after_init = (lunar_init machine busy_world).1

abbrev after_dispatch : World
after_dispatch =
    lunar_dispatch machine 0 none
      (lunar_enqueue machine in_waker player 1 (lunar_init_task machine player after_init).1)

abbrev to_dispatch : Reachable machine after_init after_dispatch
to_dispatch =
    more (more (more start (inits_task player)) (enqueues in_waker player 1)) (dispatches 0 none)

answers : Answers machine
answers = record {
  few = omega arith;
  task_cpu_below = λ t a. omega arith;
  idle_below = λ t a c e. absurd (ground (arith, e));
}

plain : AllPlain to_dispatch
plain = (((tt, tt), tt), omega arith)

Reachable-AllExist_example : AllExist machine after_init.trace after_dispatch.trace
Reachable-AllExist_example =
    Reachable-AllExist machine busy_world after_dispatch to_dispatch loaded refl answers ready plain

-- `player` is preempted on cpu 0 after half of its slice.
abbrev half_run : TaskCtx
half_run = record half_busy { started_at = 499_500_000 }

abbrev preempted_world : World
preempted_world = record {
  maps = record {
    tasks = λ a. some half_run;
    cpus = λ c. some (record runs_normal { preempt_pending = true });
    scratch = none;
    nr_rt_busy = 0;
  };
  trace = [];
}

abbrev stopped : Task
stopped = record player { slice = 0 }

kicked : Preempted machine stopped half_run preempted_world
unfolding elapsed
kicked = record {
  dctx = record runs_normal { preempt_pending = true };
  known = refl;
  cpu = refl;
  pending = refl;
  slice = refl;
  enough = omega arith;
  fits = omega arith;
}

no_wakeup : has_flag 0 scx_enq_wakeup ≡ false
unfolding has_flag
no_wakeup = refl

never_taken : (w : World) (cpu : ℕ) → cpu_taken_by_rt machine w cpu ≡ false
unfolding cpu_taken_by_rt
never_taken w cpu = refl

lunar_stopping-lunar_enqueue_example :
    Resumed machine stopped
      (1_000_000 - elapsed 500_000_000 499_500_000)
      0
      (lunar_stopping machine stopped true preempted_world)
      (lunar_enqueue machine in_waker stopped 0
        (lunar_stopping machine stopped true preempted_world))
lunar_stopping-lunar_enqueue_example =
    lunar_stopping-lunar_enqueue machine in_waker stopped half_run 0 preempted_world kicked
      no_wakeup (never_taken _ _)
