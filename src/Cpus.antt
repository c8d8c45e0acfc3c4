-- ===== src/Cpus.antt =====
-- source/helpers.h: the topology of a cpu, and whether a realtime or deadline task has taken it.
use lunar_sched.Base.{ℕ, ◌%◌, Bool, false, Option, none, some, ◌&&◌, ◌||◌, ◌==◌, if◌then◌else◌}
use lunar_sched.Datatypes.{Task, TaskCtx, DispatchCtx}
use lunar_sched.Defines.{max_cpus, sched_fifo, sched_rr, sched_deadline}
use lunar_sched.Kernel.{Machine, World, put_cpu}

abbrev pub get_task_ctx : World → Task → Option TaskCtx
get_task_ctx w p = w.tasks p.address

abbrev pub get_dispatch_ctx : World → ℕ → Option DispatchCtx
get_dispatch_ctx w cpu = w.cpus cpu

-- `if (dctx) { … }`, where the body changes the context of `cpu`.
unfoldable pub modify_cpu : ℕ → (DispatchCtx → DispatchCtx) → World → World
modify_cpu cpu f w = elim (get_dispatch_ctx w cpu) [ none ↦ w | some d ↦ put_cpu cpu (f d) w ]

-- `cpu & (MAX_CPUS - 1)`, with MAX_CPUS a power of 2.
unfoldable pub cpu_llc_id : Machine → ℕ → ℕ
cpu_llc_id m cpu = m.cpu_to_llc (cpu % max_cpus)

unfoldable pub cpu_is_online : Machine → ℕ → Bool
cpu_is_online m cpu = m.cpu_online (cpu % max_cpus)

unfoldable pub is_percpu_kthread : Task → Bool
is_percpu_kthread p = p.pf_kthread && p.nr_cpus_allowed == 1

unfoldable pub is_rt_task : Task → Bool
unfolding is_percpu_kthread
is_rt_task p =
    if is_percpu_kthread p
    then false
    else p.policy == sched_fifo || p.policy == sched_rr || p.policy == sched_deadline

unfoldable pub cpu_taken_by_rt : Machine → World → ℕ → Bool
cpu_taken_by_rt m w cpu = elim (m.curr w.trace cpu) [ none ↦ false | some p ↦ is_rt_task p ]
