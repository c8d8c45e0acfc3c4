-- ===== src/Examples/Cores.antt =====
-- Cpus, callbacks and the queues of a machine of four cpus.
use lunar_sched.Base.{
  ℕ, ◌≤◌, ◌<◌, ◌≡◌, ◌⊎◌, inl, inr, refl, subst, some, none, [], ◌∷◌, Bool, true, false, ◌&&◌, ◌==◌,
  if◌then◌else◌, arith,
}
use lunar_sched.Base.Int.{pos}
use lunar_sched.Callbacks.Switch.{lunar_sched_switch}
use lunar_sched.Cpus.{cpu_is_online, cpu_taken_by_rt, cpu_llc_id}
use lunar_sched.Defines.{dsq_type_empty, starve_override_cooldown_ns}
use lunar_sched.Dispatch.Conserve.{Gives, Reaches, Quiet, here, read, drew, missed}
use lunar_sched.Dispatch.Conserve.Whole.{dispatch_dsq_per_cpu-IsTier, dispatch_dsq_per_cpu_lc}
use lunar_sched.Dispatch.Accounting.{moves_of, dispatch_dsq_per_cpu_moves}
use lunar_sched.Dispatch.Order.{dispatch_dsq_per_cpu}
use lunar_sched.Dispatch.Starve.{
  Cooling, Clocked, NoneLate, Latest, most_starved_tier-overrun, most_starved_tier_lem,
}
use lunar_sched.Dispatch.Priority.Whole.{dispatch_dsq_per_cpu_no_worse}
use lunar_sched.Dispatch.Priority.{Calm}
use lunar_sched.Dispatch.{most_starved_tier}
use lunar_sched.Datatypes.{DispatchCtx}
use mathlib.Core.Option.{some-injective}
use lunar_sched.Dsq.{get_cpu_dsq_from_type, dsq_queued}
use lunar_sched.Examples.Sample.{
  four_cpus, two_llcs, machine, half_busy, runs_normal, busy_world, player, fifo_task, no_scratch,
}
use lunar_sched.Kernel.{Machine, World, Trace, move_to_local}
use lunar_sched.Invariant.Rt.Count.{Counted, lunar_sched_switch-Counted}
use lunar_sched.Placement.{candidate, runs_ahead, cpu_load_ahead, pick_enqueue_cpu}
use lunar_sched.Placement.Least.{NoneLess, pick_enqueue_cpu_least}
use lunar_sched.Placement.Pick.{Choice, Stamped, pick_enqueue_cpu-Choice}
use lunar_sched.Tier.Target.{IsTier}

dispatch_dsq_per_cpu_moves_example :
    let (tier, w') = dispatch_dsq_per_cpu machine 0 3 busy_world in
    (IsTier tier
      × ((c : ℕ) × ((c ≡ 0) ⊎ ((c < machine.nr_cpu_ids) × (cpu_is_online machine c ≡ true)))
          × (moves_of w'.trace ≡ get_cpu_dsq_from_type tier c ∷ moves_of busy_world.trace)))
    ⊎ ((5 ≤ tier) × (moves_of w'.trace ≡ moves_of busy_world.trace))
dispatch_dsq_per_cpu_moves_example = dispatch_dsq_per_cpu_moves machine 0 3 busy_world

neighbour : candidate machine player 1 0 ≡ true
unfolding candidate cpu_is_online cpu_llc_id
neighbour = refl

loaded : 0 < cpu_load_ahead machine busy_world 1 2
unfolding cpu_load_ahead cpu_taken_by_rt dsq_queued get_cpu_dsq_from_type runs_ahead
loaded = omega arith

pick_enqueue_cpu_least_example :
    NoneLess machine 2 1
      (cpu_load_ahead machine busy_world 1 2)
      0
      (pick_enqueue_cpu machine player half_busy 2 1 600_000_000 busy_world)
pick_enqueue_cpu_least_example =
    pick_enqueue_cpu_least machine player half_busy 2 1 600_000_000 0 15 busy_world no_scratch
      (omega arith) (omega arith) (omega arith) neighbour loaded (omega arith) refl refl

pick_enqueue_cpu-Choice_example :
    let r = pick_enqueue_cpu machine player half_busy 2 1 600_000_000 busy_world in
    Choice machine player 2 1 busy_world r × Stamped half_busy 1 600_000_000 r
pick_enqueue_cpu-Choice_example =
    pick_enqueue_cpu-Choice machine player half_busy 2 1 600_000_000 busy_world

clocked : Clocked machine busy_world runs_normal 1 500_000_000
clocked = record {
  interactive = omega arith;
  normal = omega arith;
  greedy = omega arith;
  fits = omega arith;
}

most_starved_tier_lem_example :
    let worst = most_starved_tier machine busy_world runs_normal 1 500_000_000 in
    ((worst ≡ dsq_type_empty)
      × (Cooling machine busy_world runs_normal 1 500_000_000
          ⊎ NoneLate machine busy_world runs_normal 1 500_000_000))
    ⊎ ((starve_override_cooldown_ns ≤ 500_000_000)
        × Latest machine busy_world runs_normal 1 500_000_000 worst)
most_starved_tier_lem_example =
    most_starved_tier_lem machine busy_world runs_normal 1 500_000_000 clocked

counted : Counted machine busy_world
counted = record { exact = refl; few = omega arith }

lunar_sched_switch-Counted_example :
    Counted machine (lunar_sched_switch machine 2 fifo_task busy_world)
lunar_sched_switch-Counted_example =
    lunar_sched_switch-Counted machine 2 fifo_task busy_world (omega arith) counted

-- A kernel with one task, in the INTERACTIVE queue of cpu 1, until it is taken. Cpu 0 reaches that queue.
abbrev untaken : Trace → Bool
untaken [] = true
untaken (move_to_local dsq true ∷ t) = false
untaken (_ ∷ t) = untaken t

abbrev one_waits : Machine
one_waits = record {
  kernel = record four_cpus {
    queued_in = λ t dsq. if dsq == 2049 && untaken t then pos 1 else pos 0;
    moves = λ t dsq. dsq == 2049 && untaken t;
  };
  rodata = two_llcs;
}

Quiet-untaken : (u : Trace) → Quiet [] u → untaken u ≡ true
Quiet-untaken _ here = refl
Quiet-untaken _ (read now q) = Quiet-untaken _ q
Quiet-untaken _ (drew n q) = Quiet-untaken _ q
Quiet-untaken _ (missed dsq q) = Quiet-untaken _ q

gives : Gives one_waits (get_cpu_dsq_from_type 2 1) busy_world.trace
unfolding dsq_queued get_cpu_dsq_from_type
gives = record {
  waits = λ w q. rw (Quiet-untaken w.trace q) refl;
  moves = λ w q. rw (Quiet-untaken w.trace q) refl;
}

reaches : Reaches one_waits 0 1
unfolding cpu_is_online cpu_llc_id
reaches = record {
  below = omega arith;
  few = omega arith;
  other = omega arith;
  online = refl;
  llc = inl refl;
}

dispatch_dsq_per_cpu-IsTier_example :
    IsTier (dispatch_dsq_per_cpu one_waits 0 dsq_type_empty busy_world).0
dispatch_dsq_per_cpu-IsTier_example =
    dispatch_dsq_per_cpu-IsTier one_waits 0 2 1 busy_world (omega arith) gives (inr reaches)

-- Cpu 1 began an override 5ms ago, and has used it up.
abbrev cooling : DispatchCtx
cooling = record runs_normal { last_override_ts = 495_000_000 }

abbrev cooling_world : World
cooling_world = record {
  maps = record { tasks = λ a. none; cpus = λ c. some cooling; scratch = none; nr_rt_busy = 0 };
  trace = [];
}

calm : Calm one_waits 1 cooling_world
calm = record {
  idle = λ d e. ground (arith, e);
  fed = λ d w e q.
      subst (λ d. most_starved_tier one_waits w d 1 500_000_000 ≡ 5) (some-injective _ _ e)
        (ground (arith, most_starved_tier-overrun one_waits w cooling 1 500_000_000));
}

one_waits-Gives : Gives one_waits (get_cpu_dsq_from_type 2 1) cooling_world.trace
one_waits-Gives = record { waits = gives.waits; moves = gives.moves }

dispatch_dsq_per_cpu_no_worse_example :
    (1 ≤ (dispatch_dsq_per_cpu one_waits 1 3 cooling_world).0)
    × ((dispatch_dsq_per_cpu one_waits 1 3 cooling_world).0 ≤ 2)
dispatch_dsq_per_cpu_no_worse_example =
    dispatch_dsq_per_cpu_no_worse one_waits 1 2 3 cooling_world (omega arith) (omega arith)
      one_waits-Gives calm

-- A kernel whose queues always give a task.
abbrev full : Machine
full = record {
  kernel = record four_cpus { queued_in = λ t dsq. pos 1; moves = λ t dsq. true };
  rodata = two_llcs;
}

lc_queue : Gives full (get_cpu_dsq_from_type 1 3) busy_world.trace
unfolding dsq_queued
lc_queue = record { waits = λ w q. refl; moves = λ w q. refl }

dispatch_dsq_per_cpu_lc_example : (dispatch_dsq_per_cpu full 3 2 busy_world).0 ≡ 1
dispatch_dsq_per_cpu_lc_example = dispatch_dsq_per_cpu_lc full 3 2 busy_world lc_queue
