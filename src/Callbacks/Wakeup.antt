-- ===== src/Callbacks/Wakeup.antt =====
-- source/lunar.bpf.c: `lunar_select_cpu`, `lunar_enqueue`, `lunar_quiescent` and `lunar_runnable`.
pub mod Enqueue
pub mod Kicks
use lunar_sched.Base.{
  ℕ, suc, ◌+◌, ◌-◌, ◌^◌, Bool, true, false, not, Option, none, some, ◌&&◌, ltb, ◌==◌, bit_and,
  bit_or, add64, u32, if◌then◌else◌,
}
use lunar_sched.Base.Int.{ℤ, pos, negsuc}
use lunar_sched.Boost.{Context, apply_wake_boost, record_waker}
use lunar_sched.Cpus.{get_task_ctx, get_dispatch_ctx, modify_cpu, cpu_is_online, cpu_taken_by_rt}
use lunar_sched.Crit.{exponentially_weighted_moving_avg, elapsed, clamp_interval}
use lunar_sched.Datatypes.{Task, TaskCtx, DispatchCtx}
use lunar_sched.Defines.{dsq_type_lc, dsq_type_greedy, dsq_type_empty, duty_samples_max, slice_ns}
use lunar_sched.Dispatch.Kick.{scx_kick_idle}
use lunar_sched.Dsq.{get_cpu_dsq_from_type, dsq_queued, scx_dsq_local, stamp_tier_head_ts}
use lunar_sched.Duty.{task_duty, duty_account}
use lunar_sched.Kernel.{
  Machine, World, Event, dsq_insert, kick_cpu, select_cpu, read_clock, emit, put_cpu, put_task,
}
use lunar_sched.Placement.{Picked, cpu_load_ahead, pick_enqueue_cpu}
use lunar_sched.Tier.{effective_tier, update_task_dsq_type}

-- Flags of the kernel, as in include/scx/enums_abi.autogen.h.
abbrev pub scx_wake_ttwu : ℕ
scx_wake_ttwu = 0x8

abbrev pub scx_enq_wakeup : ℕ
scx_enq_wakeup = 0x1

abbrev pub scx_enq_head : ℕ
scx_enq_head = 0x10000

abbrev pub scx_deq_sleep : ℕ
scx_deq_sleep = 0x1

abbrev pub scx_kick_preempt : ℕ
scx_kick_preempt = 2

unfoldable pub has_flag : ℕ → ℕ → Bool
has_flag flags flag = not (bit_and flags flag == 0)

-- The (u32) of an s32.
abbrev u32_of : ℤ → ℕ
u32_of (pos n) = u32 n
u32_of (negsuc n) = u32 (2 ^ 32 - suc n)

-- The boost of `lunar_select_cpu` and `lunar_enqueue`, at the flag that tells a wakeup.
unfoldable pub boost_if : Bool → Context → Task → World → World
boost_if wakeup c p w = elim (get_task_ctx w p) [
  | none ↦ w
  | some t ↦ if wakeup then put_task p.address (apply_wake_boost c w p t) w else w
]

unfoldable pub lunar_select_cpu : Machine → Context → Task → ℕ → World → ℤ × World
lunar_select_cpu m c p wake_flags w =
    let w1 : World = boost_if (has_flag wake_flags scx_wake_ttwu) c p w in
    let (cpu, is_idle) = m.select w1.trace p.address in
    let w2 : World = emit (select_cpu p.address cpu) w1 in
    let tier : ℕ = effective_tier (get_task_ctx w2 p) in
    let free : Bool = is_idle && cpu_load_ahead m w2 (u32_of cpu) tier == 0 in
    (cpu, if free then emit (dsq_insert p.address scx_dsq_local slice_ns 0) w2 else w2)

-- The stamp of an empty queue: its new task is its head.
unfoldable pub stamp_empty : Machine → ℕ → ℕ → ℕ → World → World
stamp_empty m tier cpu now w =
    if not (tier == dsq_type_lc) && dsq_queued m w (get_cpu_dsq_from_type tier cpu) == 0
    then modify_cpu cpu (stamp_tier_head_ts tier now) w
    else w

-- The kick of the target after the insertion.
unfoldable pub kick_target : ℕ → ℕ → ℕ → World → Option DispatchCtx → World
kick_target tier target flags w none = emit (kick_cpu target scx_kick_idle) w
kick_target tier target flags w (some d) =
    if d.current_task_dsq_type == dsq_type_empty
    then emit (kick_cpu target scx_kick_idle) w
    else if tier == dsq_type_lc && has_flag flags scx_enq_wakeup && ltb tier d.current_task_dsq_type
    then emit (kick_cpu target scx_kick_preempt)
        (put_cpu target (record d { preempt_pending = true }) w)
    else w

-- From the choice of the target on.
unfoldable pub enqueue_at : Machine → Task → ℕ → ℕ → ℕ → ℕ → ℕ → World → World
enqueue_at m p flags tier now cpu picked w =
    let target : ℕ = if cpu_is_online m picked then picked else cpu in
    let w1 : World = stamp_empty m tier target now w in
    let w2 : World =
      emit (dsq_insert p.address (get_cpu_dsq_from_type tier target) slice_ns flags) w1 in
    kick_target tier target flags w2 (get_dispatch_ctx w2 target)

-- A preempted task goes back to the head of its queue with the rest of its slice.
unfoldable pub enqueue_resume : Machine → Task → TaskCtx → ℕ → ℕ → ℕ → ℕ → World → World
enqueue_resume m p t flags tier now cpu w =
    let w1 : World = put_task p.address (record t { resume_slice = 0 }) w in
    let w2 : World = stamp_empty m tier cpu now w1 in
    emit
      (dsq_insert p.address (get_cpu_dsq_from_type tier cpu) t.resume_slice
        (bit_or flags scx_enq_head))
      w2

unfoldable pub enqueue_place : Machine → Task → TaskCtx → ℕ → ℕ → ℕ → ℕ → World → World
enqueue_place m p t flags tier now cpu w =
    let picked : Picked = pick_enqueue_cpu m p t tier cpu now w in
    enqueue_at m p flags tier now cpu (u32 picked.cpu) (put_task p.address picked.tctx picked.world)

unfoldable pub enqueue_known : Machine → Task → TaskCtx → ℕ → ℕ → ℕ → ℕ → World → World
enqueue_known m p t flags tier now cpu w =
    if t.resume_slice == 0
    then enqueue_place m p t flags tier now cpu w
    else if cpu_taken_by_rt m w cpu
    then enqueue_place m p (record t { resume_slice = 0 }) flags tier now cpu w
    else enqueue_resume m p t flags tier now cpu w

unfoldable pub lunar_enqueue : Machine → Context → Task → ℕ → World → World
lunar_enqueue m c p flags w =
    let w1 : World = boost_if (has_flag flags scx_enq_wakeup) c p w in
    let t : Option TaskCtx = get_task_ctx w1 p in
    let tier : ℕ = effective_tier t in
    let cpu : ℕ = m.task_cpu w1.trace p.address in
    let now : ℕ = m.clock w1.trace in
    let w2 : World = emit (read_clock now) w1 in
    elim t [
      | none ↦ enqueue_at m p flags tier now cpu cpu w2
      | some t ↦ enqueue_known m p t flags tier now cpu w2
    ]

unfoldable pub block_task : ℕ → TaskCtx → TaskCtx
block_task at t = record t { resume_slice = 0; boost_dsq_type = dsq_type_empty; blocked_at = at }

unfoldable pub lunar_quiescent : Machine → Task → ℕ → World → World
lunar_quiescent m p flags w = elim (get_task_ctx w p) [
  | none ↦ w
  | some t ↦
      let now : ℕ = m.clock w.trace in
      if has_flag flags scx_deq_sleep
      then put_task p.address (block_task now t) (emit (read_clock now) w)
      else put_task p.address (block_task 0 t) w
]

unfoldable pub note_woken : ℕ → TaskCtx → TaskCtx
note_woken now t = record t {
  wait_interval =
      exponentially_weighted_moving_avg t.wait_interval
        (clamp_interval (elapsed now t.last_woken_at));
  last_woken_at = now;
}

-- One more sample, counted up to the limit.
unfoldable pub sample : TaskCtx → TaskCtx
sample t =
    let more : ℕ = add64 t.duty_samples 1 in
    record t {
      duty_samples = if ltb duty_samples_max more then duty_samples_max else more;
      blocked_at = 0;
    }

unfoldable pub end_block : Task → ℕ → TaskCtx → TaskCtx
end_block p now t =
    let slept : TaskCtx = sample (duty_account t 0 (elapsed now t.blocked_at)) in
    update_task_dsq_type p.pf_kthread (record slept { duty = pos (task_duty slept) }) now

-- After the record of the wakeup, the context is read again: the waker's may be the same.
unfoldable pub runnable_slept : Task → ℕ → World → World
runnable_slept p now w = elim (get_task_ctx w p) [
  | none ↦ w
  | some t ↦ if t.blocked_at == 0 then w else put_task p.address (end_block p now t) w
]

unfoldable pub lunar_runnable : Machine → Context → Task → ℕ → World → World
lunar_runnable m c p flags w =
    let now : ℕ = m.clock w.trace in
    let w1 : World = emit (read_clock now) w in
    elim (get_task_ctx w1 p) [
      | none ↦ w1
      | some t ↦
          if has_flag flags scx_enq_wakeup
          then runnable_slept p now
              (record_waker c p now (put_task p.address (note_woken now t) w1))
          else runnable_slept p now w1
    ]
