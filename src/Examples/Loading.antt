-- ===== src/Examples/Loading.antt =====
-- Runs of the loader, exits of the scheduler, and wakeups in several contexts.
use lunar_sched.Base.{
  ℕ, ◌+◌, ◌/◌, ◌^◌, ◌≡◌, refl, true, false, none, some, [], ◌∷◌, arith, leb, ◌==◌, if◌then◌else◌,
}
use lunar_sched.Base.Int.{pos}
use lunar_sched.Compat.{CpuState, x86}
use lunar_sched.Examples.Sample.{busy_world, half_busy, player, runs_normal}
use lunar_sched.Examples.Boot.{small_host, small-Lists, fresh, root}
use lunar_sched.ExitInfo.{
  uei_define, uei_set_size, UserExitInfo, ScxExitInfo, lunar_exit, uei_report,
}
use lunar_sched.Kernel.{World}
use lunar_sched.Datatypes.{Task, TaskCtx}
use lunar_sched.Loader.{
  Os, Trace, returned, restart, failed, said, of_exit, running_well, read_stop, read_exited,
  reported, destroyed, main, run_attached, sequence,
}
use lunar_sched.Loader.Ejected.{lunar_exit-run_attached}
use lunar_sched.Loader.Ends.{Interrupted, main-returns}
use lunar_sched.Loader.Exit.{asked_to_stop, main-exit_status}
use lunar_sched.Text.{Bytes, bytes, length}
use lunar_sched.Topology.Setup.Written.{setup_lunar_topology-HoldsTopology}

abbrev no_exit : UserExitInfo
no_exit = uei_set_size 0 uei_define

-- The user stops the loader after 20 calls.
abbrev quiet : Os
quiet = record {
  open_skeleton = λ t. some fresh;
  hotplug_seq = λ t. sequence (pos 7);
  host = λ t. small_host;
  cpu_root = root;
  load = λ t r. pos 0;
  attach = λ t. pos 0;
  stop = λ t. leb 20 (length t);
  uei = λ t. no_exit;
}

interrupted : Interrupted quiet 20
interrupted = record {
  stopping = λ t h. ground arith;
  readable = λ t e. absurd (ground (arith, e));
  defined = λ t r e.
      let (s, k, done, holds) =
        setup_lunar_topology-HoldsTopology small_host root (0 ∷ 1 ∷ 3 ∷ []) 4 small-Lists r
          (omega arith) in
      absurd (ground (arith, e, k));
}

main-returns_example : (status : ℕ) × (t : Trace) × (main quiet 21 21 [] ≡ returned status t)
main-returns_example = main-returns quiet 20 interrupted 20 20 (omega arith) (omega arith)

whole_run : (status : ℕ) × (t : Trace) × (main quiet 21 21 [] ≡ returned status t)
whole_run = main-returns quiet 20 interrupted 20 20 (omega arith) (omega arith)

main-exit_status_example : whole_run.0 ≡ (if asked_to_stop whole_run.1 then 0 else 1)
main-exit_status_example = main-exit_status quiet 21 21 whole_run.0 whole_run.1 whole_run.2

-- A cpu was hotplugged: the code asks for a restart.
abbrev hotplug : ScxExitInfo
hotplug = record {
  kind = pos 65;
  exit_code = some (2 ^ 48 + 2 ^ 32);
  exit_cpu = none;
  reason = bytes "unregistered from BPF";
  msg = [];
  dump = [];
}

abbrev copy_str : ℕ → Bytes → Bytes
copy_str size s = s

abbrev ejecting : Os
ejecting = record quiet { stop = λ t. false; uei = λ t. lunar_exit copy_str hotplug no_exit }

lunar_exit-run_attached_example :
    run_attached ejecting 5 []
    ≡ returned (if (2 ^ 48 + 2 ^ 32) / 2 ^ 48 == 1 then restart else failed) (
        destroyed
        ∷ reported (2 ^ 48 + 2 ^ 32)
        ∷ said (of_exit (uei_report (lunar_exit copy_str hotplug no_exit)).0)
        ∷ read_exited true
        ∷ read_stop false
        ∷ said running_well
        ∷ [])
lunar_exit-run_attached_example =
    lunar_exit-run_attached ejecting 4 [] copy_str hotplug no_exit (2 ^ 48 + 2 ^ 32) (λ t. refl)
      (λ t. refl) refl refl (omega arith)

-- A softirq is disabled, but not served.
abbrev softirqs_off : CpuState
softirqs_off = record {
  target = x86;
  has_preempt_count = true;
  preempt_count = 512;
  has_pcpu_hot = false;
  pcpu_hot = 0;
  thread_count = 0;
  preempt_rt = false;
  softirq_disable_cnt = 0;
}

-- An LC task wakes `player`.
abbrev urgent_waker : Task
urgent_waker = record player { address = 2; pid = 101 }

abbrev lc_context : TaskCtx
lc_context = record half_busy { current_dsq_type = 1 }

abbrev waking_world : World
waking_world = record busy_world {
  maps = record {
    tasks = λ a. some (if a == 2 then lc_context else half_busy);
    cpus = λ c. some runs_normal;
    scratch = none;
    nr_rt_busy = 0;
  };
}
