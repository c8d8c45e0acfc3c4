-- ===== src/Callbacks/Switch.antt =====
-- source/lunar.bpf.c: `lunar_sched_switch`, which keeps track of the cpus that run realtime tasks.
use lunar_sched.Base.{ℕ, Bool, true, false, not, none, some, ◌==◌, add64, sub64, if◌then◌else◌}
use lunar_sched.Cpus.{get_dispatch_ctx, is_rt_task}
use lunar_sched.Datatypes.{Task, DispatchCtx}
use lunar_sched.Dispatch.Kick.{kick_idle_for_waiting}
use lunar_sched.Dsq.{local_dsq, dsq_queued}
use lunar_sched.Kernel.{Machine, World, reenqueue_local, emit, put_cpu}

abbrev pub set_nr_rt_busy : ℕ → World → World
set_nr_rt_busy n w = record w { maps = record maps { nr_rt_busy = n } }
  where
    open w use {maps}

abbrev pub bool_eq : Bool → Bool → Bool
bool_eq true b = b
bool_eq false b = not b

-- The flag of the cpu and the count of such cpus.
unfoldable pub note_switch : ℕ → Bool → DispatchCtx → World → World
note_switch cpu rt d w =
    if bool_eq rt d.rt_busy
    then w
    else set_nr_rt_busy (if rt then add64 w.nr_rt_busy 1 else sub64 w.nr_rt_busy 1)
        (put_cpu cpu (record d { rt_busy = rt }) w)

-- The tasks picked for a cpu that a realtime task takes go back through placement.
unfoldable pub leave_cpu : Machine → ℕ → World → World
leave_cpu m cpu w =
    let w' : World = if dsq_queued m w (local_dsq cpu) == 0 then w else emit reenqueue_local w in
    kick_idle_for_waiting m cpu w'

unfoldable pub lunar_sched_switch : Machine → ℕ → Task → World → World
lunar_sched_switch m cpu next w = elim (get_dispatch_ctx w cpu) [
  | none ↦ w
  | some d ↦
      let rt : Bool = is_rt_task next in
      let w' : World = note_switch cpu rt d w in if rt then leave_cpu m cpu w' else w'
]
