-- ===== src/Datatypes.antt =====
-- source/datatypes.h: the read-only topology, the per-task and per-cpu contexts, the scratch area.
use lunar_sched.Base.{ℕ, Bool, Option}
use lunar_sched.Base.Int.{ℤ}

-- What userspace writes into the BPF object before it is loaded.
pub record Rodata : Type 0 where
  pub nr_llcs : ℕ
  pub cpu_to_llc : ℕ → ℕ
  pub cpu_online : ℕ → Bool

pub record TaskCtx : Type 0 where
  pub current_dsq_type : ℕ
  pub boost_dsq_type : ℕ
  pub boost_used : ℕ
  pub blocked_at : ℕ
  pub duty : ℤ
  pub run_acc : ℕ
  pub sleep_acc : ℕ
  pub started_at : ℕ
  pub duty_samples : ℕ
  pub granted_slice : ℕ
  pub resume_slice : ℕ
  pub last_migrated_at : ℕ
  pub wait_interval : ℕ
  pub wake_interval : ℕ
  pub last_woken_at : ℕ
  pub last_wake_at : ℕ
  pub crit : ℕ

-- `tier_head_ts` is indexed by tier.
pub record DispatchCtx : Type 0 where
  pub current_task_dsq_type : ℕ
  pub tier_head_ts : ℕ → ℕ
  pub last_override_ts : ℕ
  pub override_tier : ℕ
  pub override_left : ℕ
  pub rt_busy : Bool
  pub preempt_pending : Bool

pub record PickScratch : Type 0 where
  pub best_load : ℕ
  pub sampled : ℕ
  pub best : ℕ

-- What Lunar reads of a `task_struct`. `address` is the pointer, by which contexts are kept;
-- `pf_kthread` and `pf_idle` are the tests of `flags`, `queued` that of `scx.flags` for
-- SCX_TASK_QUEUED, `allowed` the cpus in `cpus_ptr`, `slice` is `scx.slice`.
pub record Task : Type 0 where
  pub address : ℕ
  pub pid : ℕ
  pub pf_kthread : Bool
  pub pf_idle : Bool
  pub policy : ℕ
  pub nr_cpus_allowed : ℕ
  pub allowed : ℕ → Bool
  pub queued : Bool
  pub slice : ℕ

-- The maps: `task_ctx_store`, `dispatch_state` of each cpu, `pick_scratch_map` of the cpu that runs
-- the handler, and the counter `nr_rt_busy`. `none` is a lookup that returns NULL.
pub record Maps : Type 0 where
  pub tasks : ℕ → Option TaskCtx
  pub cpus : ℕ → Option DispatchCtx
  pub scratch : Option PickScratch
  pub nr_rt_busy : ℕ
