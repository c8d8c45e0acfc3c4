-- ===== src/Dispatch/Logic.antt =====
-- A rule for each part of the dispatch, for any pair of relations between the world before and after: one
-- for a task taken from a tier, one for none taken. What a pair must satisfy is the record `Searches`, and `Rules`
-- for the whole of a dispatch.
pub mod Parts
pub mod Whole
use lunar_sched.Base.{ℕ, ◌≤◌, ◌<◌, ◌≡◌, refl, ◌⊎◌, inl, inr, Bool, true, false, arith}
use lunar_sched.Cpus.{modify_cpu, cpu_is_online}
use lunar_sched.Datatypes.{DispatchCtx}
use lunar_sched.Dispatch.{Test, Action}
use lunar_sched.Dsq.{get_cpu_dsq_from_type, stamp_tier_head_ts}
use lunar_sched.Kernel.{Machine, World, move_to_local, draw_random, read_clock, emit}
use lunar_sched.Tier.Target.{IsTier}

-- A change of the override fields alone.
abbrev pub IsLabel : (DispatchCtx → DispatchCtx) → Type 0
IsLabel f =
    (d : DispatchCtx)
    → ((f d).current_task_dsq_type ≡ d.current_task_dsq_type)
      × ((f d).rt_busy ≡ d.rt_busy)
      × ((f d).preempt_pending ≡ d.preempt_pending)

-- The cpus that a task may be taken from: this one, and those that exist and are online.
abbrev pub IsSource : Machine → ℕ → ℕ → Type 0
IsSource m cpu c = (c ≡ cpu) ⊎ ((c < m.nr_cpu_ids) × (cpu_is_online m c ≡ true))

-- What a search for a task may do.
pub record Searches (m : Machine) (cpu : ℕ) (Hit : ℕ → World → World → Type 0)
    (Miss : World → World → Type 0) : Type 0 where
  pub still : (w : World) → Miss w w
  pub then_miss : (a b c : World) → Miss a b → Miss b c → Miss a c
  pub then_hit : (tier : ℕ) (a b c : World) → Miss a b → Hit tier b c → Hit tier a c
  pub clock : (now : ℕ) (w : World) → Miss w (emit (read_clock now) w)
  pub random : (n : ℕ) (w : World) → Miss w (emit (draw_random n) w)
  pub refused :
      (tier c : ℕ) (w : World)
      → IsTier tier
      → IsSource m cpu c
      → m.moves w.trace (get_cpu_dsq_from_type tier c) ≡ false
      → Miss w (emit (move_to_local (get_cpu_dsq_from_type tier c) false) w)
  pub taken :
      (tier c now : ℕ) (w : World)
      → IsTier tier
      → IsSource m cpu c
      → Hit tier w (
          modify_cpu c
            (stamp_tier_head_ts tier now)
            (emit (move_to_local (get_cpu_dsq_from_type tier c) true) w))

-- A dispatch also changes the override of its cpu.
pub record Rules (m : Machine) (cpu : ℕ) (Hit : ℕ → World → World → Type 0)
    (Miss : World → World → Type 0) : Type 0 where
  pub searches : Searches m cpu Hit Miss
  pub open searches use *
  pub label_miss :
      (f : DispatchCtx → DispatchCtx) (w : World) → IsLabel f → Miss w (modify_cpu cpu f w)
  pub label_hit :
      (tier : ℕ) (f : DispatchCtx → DispatchCtx) (a b : World)
      → IsLabel f
      → Hit tier a b
      → Hit tier a (modify_cpu cpu f b)

module _ (Hit : ℕ → World → World → Type 0) (Miss : World → World → Type 0) where
  abbrev pub Tested : ℕ → World → Bool × World → Type 0
  Tested tier w r = ((r.0 ≡ true) × Hit tier w r.1) ⊎ ((r.0 ≡ false) × Miss w r.1)

  abbrev pub Tests : ℕ → Test → Type 0
  Tests tier f = (w : World) → Tested tier w (f w)

  -- 5 and 6 are the answers that no task was taken.
  abbrev pub Returned : World → ℕ × World → Type 0
  Returned w r = (IsTier r.0 × Hit r.0 w r.1) ⊎ ((5 ≤ r.0) × Miss w r.1)

  abbrev pub Returns : Action → Type 0
  Returns a = (w : World) → Returned w (a w)
