-- ===== src/Callbacks/Init.antt =====
-- source/lunar.bpf.c: `lunar_init`, which creates the queues, and `lunar_init_task`.
pub mod Fresh
pub mod Outcome
use lunar_sched.Base.{
  ℕ, zero, suc, ◌+◌, ◌-◌, ◌*◌, ◌/◌, true, false, Option, none, some, List, [], ◌∷◌, u32, update,
  if◌then◌else◌,
}
use lunar_sched.Base.Int.{ℤ, pos, negsuc, is_zero}
use lunar_sched.Cpus.{get_task_ctx, get_dispatch_ctx}
use lunar_sched.Datatypes.{Task, TaskCtx, DispatchCtx}
use lunar_sched.Defines.{
  crit_interval_ref, dsq_cpu_queue_base_lc, dsq_cpu_queue_base_interactive,
  dsq_cpu_queue_base_normal, dsq_cpu_queue_base_greedy, dsq_type_interactive, dsq_type_normal,
  dsq_type_greedy, dsq_type_empty, duty_init_run_ns, duty_range, duty_samples_needed,
  duty_window_ns, kthread_init_duty_pct,
}
use lunar_sched.Duty.{task_duty}
use lunar_sched.Kernel.{Machine, World, create_dsq, read_clock, emit, put_cpu, put_task}

-- -ENOMEM
abbrev pub enomem : ℤ
enomem = negsuc 11

-- The queues are created one after another, up to the first error; 0 is success.
unfoldable pub create_queues : Machine → List ℕ → World → ℤ × World
create_queues m [] w = (pos 0, w)
create_queues m (dsq ∷ dsqs) w =
    let answer : ℤ = m.creates w.trace dsq in
    let w' : World = emit (create_dsq dsq answer) w in
    elim (is_zero answer) [ true ↦ create_queues m dsqs w' | false ↦ (answer, w') ]

abbrev pub queues_of : ℕ → List ℕ
queues_of cpu =
    u32 (dsq_cpu_queue_base_lc + cpu)
    ∷ u32 (dsq_cpu_queue_base_normal + cpu)
    ∷ u32 (dsq_cpu_queue_base_interactive + cpu)
    ∷ u32 (dsq_cpu_queue_base_greedy + cpu)
    ∷ []

-- The first loop, over `rounds` cpus from `cpu` on.
unfoldable pub init_queues : Machine → ℕ → ℕ → World → ℤ × World
init_queues m zero cpu w = (pos 0, w)
init_queues m (suc rounds) cpu w =
    let (ret, w') = create_queues m (queues_of cpu) w in
    elim (is_zero ret) [ true ↦ init_queues m rounds (cpu + 1) w' | false ↦ (ret, w') ]

unfoldable pub reset_cpu : ℕ → DispatchCtx → DispatchCtx
reset_cpu now d = record d {
  current_task_dsq_type = dsq_type_empty;
  tier_head_ts =
      update (update (update d.tier_head_ts dsq_type_interactive now) dsq_type_normal now)
        dsq_type_greedy now;
  last_override_ts = now;
  override_tier = dsq_type_empty;
  override_left = 0;
  preempt_pending = false;
}

-- The second loop.
unfoldable pub init_cpus : Machine → ℕ → ℕ → World → ℤ × World
init_cpus m zero cpu w = (pos 0, w)
init_cpus m (suc rounds) cpu w = elim (get_dispatch_ctx w cpu) [
  | none ↦ (enomem, w)
  | some d ↦
      let now : ℕ = m.clock w.trace in
      init_cpus m rounds (cpu + 1) (put_cpu cpu (reset_cpu now d) (emit (read_clock now) w))
]

unfoldable pub lunar_init : Machine → World → ℤ × World
lunar_init m w =
    let (ret, w') = init_queues m m.nr_cpu_ids 0 w in
    if is_zero ret then init_cpus m m.nr_cpu_ids 0 w' else (ret, w')

-- A context as the kernel hands it out.
abbrev pub zeroed : TaskCtx
zeroed = record {
  current_dsq_type = 0;
  boost_dsq_type = 0;
  boost_used = 0;
  blocked_at = 0;
  duty = pos 0;
  run_acc = 0;
  sleep_acc = 0;
  started_at = 0;
  duty_samples = 0;
  granted_slice = 0;
  resume_slice = 0;
  last_migrated_at = 0;
  wait_interval = 0;
  wake_interval = 0;
  last_woken_at = 0;
  last_wake_at = 0;
  crit = 0;
}

unfoldable pub reset_task : ℕ → TaskCtx → TaskCtx
reset_task now t = record t {
  current_dsq_type = dsq_type_greedy;
  boost_dsq_type = dsq_type_empty;
  boost_used = 0;
  started_at = now;
  run_acc = duty_init_run_ns;
  sleep_acc = 0;
  duty_samples = 0;
  granted_slice = 0;
  resume_slice = 0;
  last_migrated_at = 0;
  wait_interval = crit_interval_ref;
  wake_interval = crit_interval_ref;
  last_woken_at = now;
  last_wake_at = now;
  crit = 0;
  duty = pos (duty_range / 2);
}

-- The sums of a kernel thread: 8% of a window on a cpu, and all samples.
unfoldable pub kthread_sums : TaskCtx → TaskCtx
kthread_sums t =
    let run : ℕ = kthread_init_duty_pct * duty_window_ns / 100 in
    record t { run_acc = run; sleep_acc = duty_window_ns - run; duty_samples = duty_samples_needed }

unfoldable pub reset_kthread : TaskCtx → TaskCtx
reset_kthread t =
    let summed : TaskCtx = kthread_sums t in
    record summed { duty = pos (task_duty summed); current_dsq_type = dsq_type_interactive }

-- The context of a task is looked up or created.
abbrev pub context_or_zeroed : Option TaskCtx → TaskCtx
context_or_zeroed none = zeroed
context_or_zeroed (some t) = t

unfoldable pub lunar_init_task : Machine → Task → World → ℤ × World
lunar_init_task m p w =
    let now : ℕ = m.clock w.trace in
    let w' : World = emit (read_clock now) w in
    if m.stores w'.trace p.address
    then (let t : TaskCtx = reset_task now (context_or_zeroed (get_task_ctx w p)) in
        (pos 0, put_task p.address (if p.pf_kthread then reset_kthread t else t) w'))
    else (enomem, w')
