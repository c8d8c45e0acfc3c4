-- ===== src/Examples/Sample.antt =====
-- A machine of four cpus in two LLCs. An INTERACTIVE task waits on cpu 1, and cpu 0 runs a NORMAL one.
use lunar_sched.Base.{◌/◌, true, false, none, some, [], ltb, ◌==◌, if◌then◌else◌}
use lunar_sched.Base.Int.{pos, negsuc}
use lunar_sched.Datatypes.{Rodata, Task, TaskCtx, DispatchCtx, PickScratch}
use lunar_sched.Kernel.{Kernel, Machine, World}

abbrev pub four_cpus : Kernel
four_cpus = record {
  nr_cpu_ids = 4;
  queued_in = λ t dsq. if dsq == 2049 then pos 1 else pos 0;
  head_of = λ t dsq. none;
  curr = λ t cpu. none;
  task_cpu = λ t task. 0;
  idle_for = λ t task. negsuc 15;
  select = λ t task. (pos 0, false);
  moves = λ t dsq. dsq == 2049;
  stores = λ t task. true;
  creates = λ t dsq. pos 0;
  clock = λ t. 500_000_000;
  random = λ t. 6;
}

abbrev pub two_llcs : Rodata
two_llcs = record { nr_llcs = 2; cpu_to_llc = λ c. c / 2; cpu_online = λ c. ltb c 4 }

abbrev pub machine : Machine
machine = record { kernel = four_cpus; rodata = two_llcs }

-- A GREEDY task with full samples, half of the time on a cpu.
abbrev pub half_busy : TaskCtx
half_busy = record {
  current_dsq_type = 4;
  boost_dsq_type = 5;
  boost_used = 0;
  blocked_at = 0;
  duty = pos 512;
  run_acc = 80_000_000;
  sleep_acc = 80_000_000;
  started_at = 0;
  duty_samples = 10;
  granted_slice = 1_000_000;
  resume_slice = 0;
  last_migrated_at = 0;
  wait_interval = 1_000_000_000;
  wake_interval = 1_000_000_000;
  last_woken_at = 0;
  last_wake_at = 0;
  crit = 0;
}

-- A cpu that runs a NORMAL task; its tiers were last served at time 0.
abbrev pub runs_normal : DispatchCtx
runs_normal = record {
  current_task_dsq_type = 3;
  tier_head_ts = λ tier. 0;
  last_override_ts = 0;
  override_tier = 5;
  override_left = 0;
  rt_busy = false;
  preempt_pending = false;
}

abbrev pub no_scratch : PickScratch
no_scratch = record { best_load = 0; sampled = 0; best = 0 }

abbrev pub busy_world : World
busy_world = record {
  maps = record {
    tasks = λ a. none;
    cpus = λ c. if ltb c 4 then some runs_normal else none;
    scratch = some no_scratch;
    nr_rt_busy = 0;
  };
  trace = [];
}

-- An ordinary task that may run anywhere, and a SCHED_FIFO task.
abbrev pub player : Task
player = record {
  address = 1;
  pid = 100;
  pf_kthread = false;
  pf_idle = false;
  policy = 0;
  nr_cpus_allowed = 4;
  allowed = λ c. true;
  queued = true;
  slice = 1_000_000;
}

abbrev pub fifo_task : Task
fifo_task = record player { policy = 1 }
