-- ===== src/Callbacks/Init/Outcome.antt =====
-- How `lunar_init` ends.
use lunar_sched.Base.{ℕ, ◌≤◌, ◌<◌, ◌≡◌, ◌⊎◌, true, false, Option, none, ◌∷◌}
use lunar_sched.Base.Int.{ℤ, pos, is_zero}
use lunar_sched.Callbacks.Init.{enomem}
use lunar_sched.Callbacks.Init.Fresh.{IsFresh}
use lunar_sched.Datatypes.{DispatchCtx}
use lunar_sched.Invariant.Calls.{IsQueue}
use lunar_sched.Invariant.Calls.Created.{Made}
use lunar_sched.Kernel.{Machine, World, Trace, create_dsq}

-- The creation of a queue fails: it is the last call, its error is returned, and no context was touched.
pub record Refused (cpus : ℕ → Option DispatchCtx) (r : ℤ × World) : Type 0 where
  pub dsq : ℕ
  pub before : Trace
  pub last : r.1.trace ≡ create_dsq dsq r.0 ∷ before
  pub failed : is_zero r.0 ≡ false
  pub kept : r.1.cpus ≡ cpus

abbrev Created : (ℕ → Option DispatchCtx) → ℤ × World → Type 0
Created cpus r = ((is_zero r.0 ≡ true) × (r.1.cpus ≡ cpus)) ⊎ Refused cpus r

module _ (m : Machine) where
  -- All queues were created, and all contexts reset.
  abbrev pub Started : ℤ × World → Type 0
  Started r =
      (r.0 ≡ pos 0)
      × ((dsq : ℕ) → IsQueue m dsq → Made dsq r.1.trace)
      × ((c : ℕ) → c < m.nr_cpu_ids → IsFresh (r.1.cpus c))

  -- A cpu that has no context.
  abbrev pub NoContext : ℕ → ℕ → World → ℤ × World → Type 0
  NoContext first last w r =
      (r.0 ≡ enomem) × ((c : ℕ) × (first ≤ c) × (c < last) × (w.cpus c ≡ none))
