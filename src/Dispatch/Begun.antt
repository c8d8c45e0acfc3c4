-- ===== src/Dispatch/Begun.antt =====
-- source/dispatches.h: the start of a dispatch, up to where it has found no task of the LC tier.
use lunar_sched.Base.{ℕ, ◌≡◌, refl, ◌∙◌, inl, inr, Bool, false, arith}
use lunar_sched.Dispatch.Accounting.{moves_of}
use lunar_sched.Dispatch.Logic.{Searches}
use lunar_sched.Dispatch.Logic.Parts.{try_acquire_from_rt_cpu-Tests}
use lunar_sched.Dispatch.Order.{serve_tier}
use lunar_sched.Dispatch.{
  Action, return_if, try_acquire_from_rt_cpu, take_from_local_tier, take_queued,
}
use lunar_sched.Dsq.{get_cpu_dsq_from_type, dsq_queued}
use lunar_sched.Kernel.{Machine, World, read_clock, emit}

-- What a search that takes no task leaves.
record Unmoved (w w' : World) : Type 0 where
  cpus : w'.cpus ≡ w.cpus
  moves : moves_of w'.trace ≡ moves_of w.trace

unmoved : (m : Machine) (cpu : ℕ) → Searches m cpu (λ tier w w'. Unit {0}) Unmoved
unmoved m cpu = record {
  still = λ w. record { cpus = refl; moves = refl };
  then_miss = λ a b c h k. record { cpus = k.cpus ∙ h.cpus; moves = k.moves ∙ h.moves };
  then_hit = λ tier a b c h k. tt;
  clock = λ now w. record { cpus = refl; moves = refl };
  random = λ n w. record { cpus = refl; moves = refl };
  refused = λ tier c w t src e. record { cpus = refl; moves = refl };
  taken = λ tier c now w t src. tt;
}

module _ (m : Machine) (cpu : ℕ) (w : World) where
  -- The search for an LC task of this LLC on the cpus that realtime tasks have taken.
  abbrev pub rescued : Bool × World
  rescued =
      try_acquire_from_rt_cpu m 1 cpu (m.clock w.trace) (emit (read_clock (m.clock w.trace)) w)

  -- The world after it, in which the cpu's own queues are looked at.
  abbrev pub begun : World
  begun = rescued.1

  -- No task of the LC tier is there to take: that search found none, and the cpu's own LC queue is empty.
  pub record NoLc : Type 0 where
    pub no_rescue : rescued.0 ≡ false
    pub empty : dsq_queued m begun (get_cpu_dsq_from_type 1 cpu) ≡ 0

  rescued-Unmoved : NoLc → Unmoved (emit (read_clock (m.clock w.trace)) w) begun
  rescued-Unmoved h =
      elim (try_acquire_from_rt_cpu-Tests (unmoved m cpu) 1 (m.clock w.trace) (omega arith)
        (emit (read_clock (m.clock w.trace)) w)) [
          | inl (e, k) ↦ absurd (ground (arith, e, h.no_rescue))
          | inr (e, k) ↦ k
        ]

  pub begun-cpus : NoLc → begun.cpus ≡ w.cpus
  begun-cpus h = (rescued-Unmoved h).cpus

  pub begun-moves : NoLc → moves_of begun.trace ≡ moves_of w.trace
  begun-moves h = (rescued-Unmoved h).moves

  pub serve_tier-NoLc :
      (rest : Action)
      → NoLc
      → serve_tier m cpu (m.clock w.trace) 1 rest (emit (read_clock (m.clock w.trace)) w)
        ≡ rest begun
  unfolding serve_tier return_if take_from_local_tier take_queued dsq_queued
  serve_tier-NoLc rest h = rw (h.no_rescue, h.empty) refl
