-- ===== src/Kernel.antt =====
-- The kernel that the callbacks call, which is no part of the repository. Its answers are a parameter:
-- each may depend on every call made so far, the `trace`. A call that changes the kernel's state,
-- reads the clock or draws a number is put on the trace with its answer, newest first.
use lunar_sched.Base.{ℕ, Bool, Option, List, ◌∷◌, ◌==◌, if◌then◌else◌, update}
use lunar_sched.Base.Int.{ℤ}
use lunar_sched.Datatypes.{Rodata, Task, TaskCtx, DispatchCtx, PickScratch, Maps}

pub data Event : Type 0 where
  dsq_insert : (task dsq slice flags : ℕ) → Event
  move_to_local : (dsq : ℕ) (moved : Bool) → Event
  kick_cpu : (cpu flags : ℕ) → Event
  pick_idle : (task : ℕ) (answer : ℤ) → Event
  clear_idle : (cpu : ℕ) → Event
  select_cpu : (task : ℕ) (answer : ℤ) → Event
  set_slice : (task slice : ℕ) → Event
  create_dsq : (dsq : ℕ) (answer : ℤ) → Event
  read_clock : (now : ℕ) → Event
  draw_random : (n : ℕ) → Event
  reenqueue_local : Event

abbrev pub Trace : Type 0
Trace = List Event

-- `queued_in` is scx_bpf_dsq_nr_queued, `head_of` the first task of a DSQ, `curr` the task that runs
-- on a cpu, `task_cpu` scx_bpf_task_cpu, `idle_for` scx_bpf_pick_idle_cpu, `select` the answer of
-- scx_bpf_select_cpu_dfl with its `is_idle`, `moves` whether scx_bpf_dsq_move_to_local succeeds,
-- `stores` whether there is memory for the context of a task.
pub record Kernel : Type 0 where
  pub nr_cpu_ids : ℕ
  pub queued_in : Trace → ℕ → ℤ
  pub head_of : Trace → ℕ → Option Task
  pub curr : Trace → ℕ → Option Task
  pub task_cpu : Trace → ℕ → ℕ
  pub idle_for : Trace → ℕ → ℤ
  pub select : Trace → ℕ → ℤ × Bool
  pub moves : Trace → ℕ → Bool
  pub stores : Trace → ℕ → Bool
  pub creates : Trace → ℕ → ℤ
  pub clock : Trace → ℕ
  pub random : Trace → ℕ

-- The kernel, with the topology that userspace wrote.
pub record Machine : Type 0 where
  pub kernel : Kernel
  pub open kernel use *
  pub rodata : Rodata
  pub open rodata use *

-- The state that a callback works on.
pub record World : Type 0 where
  pub maps : Maps
  pub open maps use *
  pub trace : Trace

abbrev pub emit : Event → World → World
emit e w = record w { trace = e ∷ w.trace }

abbrev pub put_task : ℕ → TaskCtx → World → World
put_task a t w = record w { maps = record maps { tasks = update maps.tasks a (Option.some t) } }
  where
    open w use {maps}

abbrev pub put_cpu : ℕ → DispatchCtx → World → World
put_cpu c d w = record w { maps = record maps { cpus = update maps.cpus c (Option.some d) } }
  where
    open w use {maps}

abbrev pub put_scratch : PickScratch → World → World
put_scratch s w = record w { maps = record maps { scratch = Option.some s } }
  where
    open w use {maps}

-- The kernel frees the context of a task that exits.
abbrev pub drop_task : ℕ → World → World
drop_task a w = record w {
  maps = record maps { tasks = λ b. if a == b then Option.none else maps.tasks b };
}
  where
    open w use {maps}
