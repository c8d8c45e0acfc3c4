-- ===== src/Examples/Woken.antt =====
-- A kernel whose queues hold what was inserted and not yet moved, and a task that is woken on it.
use lunar_sched.Base.{
  ℕ, suc, ◌-◌, ◌≡◌, refl, ◌∙◌, ◌⊎◌, true, false, not, some, [], ◌∷◌, arith, ◌==◌, ==-self,
  if◌then◌else◌,
}
use lunar_sched.Base.Int.{pos}
use lunar_sched.Boost.{Context}
use lunar_sched.Callbacks.Wakeup.Kicks.{Returned}
use lunar_sched.Callbacks.Wakeup.{boost_if, lunar_enqueue, has_flag, scx_enq_wakeup}
use lunar_sched.Cpus.{get_task_ctx}
use lunar_sched.Dispatch.Conserve.{Quiet, here, read, drew, missed}
use lunar_sched.Dsq.{dsq_queued}
use lunar_sched.Examples.Sample.{four_cpus, two_llcs, busy_world, player}
use lunar_sched.Invariant.Task.{AllValid}
use lunar_sched.Kernel.{Machine, Trace, dsq_insert, move_to_local, kick_cpu}
use lunar_sched.System.Woken.{Holds, Answered, lunar_enqueue-Answered}
use lunar_sched.Tier.{effective_tier}

-- How many tasks wait in a queue.
abbrev waiting : Trace → ℕ → ℕ
waiting [] dsq = 0
waiting (dsq_insert task into slice flags ∷ t) dsq =
    let rest : ℕ = waiting t dsq in if into == dsq then suc rest else rest
waiting (move_to_local from true ∷ t) dsq =
    let rest : ℕ = waiting t dsq in if from == dsq then rest - 1 else rest
waiting (_ ∷ t) dsq = waiting t dsq

abbrev counting : Machine
counting = record {
  kernel = record four_cpus {
    queued_in = λ t dsq. pos (waiting t dsq);
    moves = λ t dsq. not (waiting t dsq == 0);
  };
  rodata = two_llcs;
}

Quiet-waiting : (s u : Trace) (dsq : ℕ) → Quiet s u → waiting u dsq ≡ waiting s dsq
Quiet-waiting s _ dsq here = refl
Quiet-waiting s _ dsq (read now q) = Quiet-waiting s _ dsq q
Quiet-waiting s _ dsq (drew n q) = Quiet-waiting s _ dsq q
Quiet-waiting s _ dsq (missed from q) = Quiet-waiting s _ dsq q

counting-Holds : Holds counting
unfolding dsq_queued
counting-Holds t task dsq slice flags cpu kick = record {
  waits = λ w q. ground (arith, more w.trace q);
  moves = λ w q. ground (arith, more w.trace q);
}
  where
    more :
        (u : Trace)
        → Quiet (kick_cpu cpu kick ∷ dsq_insert task dsq slice flags ∷ t) u
        → waiting u dsq ≡ suc (waiting t dsq)
    more u q = Quiet-waiting _ u dsq q ∙ rw (==-self dsq) refl

by_idle : Context
by_idle = record { cpu = 0; in_task = false; in_interrupt = true; current = some player }

no_contexts : AllValid busy_world
no_contexts = record { each = λ a t e. absurd (ground (arith, e)) }

lunar_enqueue-Answered_example :
    let w' = lunar_enqueue counting by_idle player 1 busy_world in
    let boosted = boost_if (has_flag 1 scx_enq_wakeup) by_idle player busy_world in
    let tctx = get_task_ctx boosted player in
    let tier = effective_tier tctx in
    Answered counting player tier 1 w'
    ⊎ Returned player tier 1 (counting.task_cpu boosted.trace 1) tctx w'
lunar_enqueue-Answered_example =
    lunar_enqueue-Answered counting by_idle player 1 busy_world counting-Holds no_contexts
