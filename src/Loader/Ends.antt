-- ===== src/Loader/Ends.antt =====
-- The process ends when the user asks it to.
use lunar_sched.Base.{
  ℕ, zero, suc, ◌+◌, ◌≤◌, ◌<◌, ◌≡◌, ◌≢◌, refl, true, false, inl, inr, none, [], ◌∷◌, Bool-cases,
  arith, leb, leb→le,
}
use lunar_sched.Datatypes.{Rodata}
use lunar_sched.ExitInfo.{uei_exited}
use lunar_sched.Loader.{
  Os, Trace, Outcome, returned, undefined_behaviour, aborted, unfinished, wait_for_end, run_all,
  main, read_stop, bug, read_exited, slept,
}
use lunar_sched.Loader.Logic.{Holds, then_run-Holds, Points, Rules}
use lunar_sched.Loader.Rounds.{round-Holds}
use lunar_sched.Text.{length}
use lunar_sched.Topology.Setup.{setup_lunar_topology}

-- After `n` calls at most the flag is set, and stays set; the topology is never undefined and the
-- number of hotplug events can be read.
pub record Interrupted (os : Os) (n : ℕ) : Type 0 where
  pub stopping : (t : Trace) → n ≤ length t → os.stop t ≡ true
  pub readable : (t : Trace) → os.hotplug_seq t ≢ bug
  pub defined : (t : Trace) (r : Rodata) → setup_lunar_topology (os.host t) os.cpu_root r ≢ none

returns-Holds :
    {A : Type 0} (P : A → Trace → Type 0) (o : Outcome A)
    → Holds ⊥ ⊥ P o
    → (a : A) × (t : Trace) × (o ≡ returned a t) × P a t
returns-Holds P (returned a t) h = (a, t, refl, h)
returns-Holds P undefined_behaviour h = absurd h
returns-Holds P aborted h = absurd h
returns-Holds P unfinished h = absurd h

module _ (os : Os) (n : ℕ) (i : Interrupted os n) where
  below-Interrupted : (t : Trace) → os.stop t ≡ false → length t < n
  below-Interrupted t e = elim (Bool-cases (leb n (length t))) [
    | inl reached ↦ absurd (ground (arith, e, i.stopping t (leb→le n (length t) reached)))
    | inr under ↦ ground (arith, under)
  ]

  wait_round :
      (base fuel : ℕ) (t : Trace)
      → base ≤ length t
      → (length t < n
          → Holds ⊥ ⊥
              (λ ejected t'. base ≤ length t')
              (wait_for_end os fuel (slept ∷ read_exited false ∷ read_stop false ∷ t)))
      → Holds ⊥ ⊥ (λ ejected t'. base ≤ length t') (wait_for_end os (suc fuel) t)
  unfolding wait_for_end
  wait_round base fuel t long more = elim (Bool-cases (os.stop t)) [
    | inl e ↦ rw e (omega arith)
    | inr e ↦ elim (Bool-cases (uei_exited (os.uei (read_stop false ∷ t)))) [
      | inl k ↦ rw (e, k) (omega arith)
      | inr k ↦ rw (e, k) (more (below-Interrupted t e))
    ]
  ]

  -- The wait ends with enough fuel for the calls that are left.
  wait_for_end-longer :
      (base fuel : ℕ) (t : Trace)
      → base ≤ length t
      → n ≤ length t + fuel
      → Holds ⊥ ⊥ (λ ejected t'. base ≤ length t') (wait_for_end os (suc fuel) t)
  wait_for_end-longer base zero t long h =
      wait_round base zero t long (λ below. absurd (omega arith))
  wait_for_end-longer base (suc fuel) t long h =
      wait_round base (suc fuel) t long
        (λ below. wait_for_end-longer base fuel _ (omega arith) (omega arith))

  AtLeast : ℕ → Trace → Type 0
  AtLeast base t = base ≤ length t

  points : ℕ → Points
  points base = record {
    Start = AtLeast base;
    Opened = AtLeast base;
    Ready = AtLeast base;
    Loaded = AtLeast base;
    Running = AtLeast base;
    Waited = λ ejected. AtLeast base;
    Done = λ result. AtLeast (base + 1);
  }

  rules : (base fuel : ℕ) → n ≤ base + fuel → Rules os (suc fuel) ⊥ ⊥ (points base)
  unfolding points AtLeast
  rules base fuel enough = record {
    absent = λ t h. omega arith;
    opens = λ t h. omega arith;
    undefined = i.defined;
    aborts = i.readable;
    readies = λ t seq s d h. omega arith;
    unready = λ t seq s d h. omega arith;
    loads = λ t err e h. omega arith;
    load_fails = λ t err e h. omega arith;
    attaches = λ t err e h. omega arith;
    attach_fails = λ t err e h. omega arith;
    waits = λ t h. wait_for_end-longer base fuel t h (omega arith);
    stops = λ t h. omega arith;
    ejects = λ t h. omega arith;
  }

  run_all_round :
      (runs fuel : ℕ) (t : Trace)
      → n ≤ length t + fuel
      → ((t' : Trace)
          → length t < length t'
          → length t' ≤ n
          → Holds ⊥ ⊥ (λ result t. Unit {0}) (run_all os runs (suc fuel) t'))
      → Holds ⊥ ⊥ (λ result t. Unit {0}) (run_all os (suc runs) (suc fuel) t)
  unfolding points AtLeast
  run_all_round runs fuel t more_fuel next =
      round-Holds os (suc fuel) ⊥ ⊥ (points (length t)) (rules (length t) fuel more_fuel)
        (record {
          Told = AtLeast (length t + 1);
          Again = λ t'. AtLeast (length t + 1) t' × (length t' ≤ n);
          Final = λ result t'. Unit {0};
        })
        (record {
          stops = λ t' k. tt;
          fails = λ t' k. tt;
          told = λ t' k. omega arith;
          silent = λ t' k. omega arith;
          ends = λ t' k. tt;
          repeats = λ t' e k. (omega arith, omega (arith, below-Interrupted t' e));
        })
        runs (λ t' (longer, within). next t' (omega arith) within) t (omega arith)

  run_all-ends :
      (runs fuel : ℕ) (t : Trace)
      → n ≤ length t + runs
      → n ≤ length t + fuel
      → Holds ⊥ ⊥ (λ result t. Unit {0}) (run_all os (suc runs) (suc fuel) t)
  run_all-ends zero fuel t more_runs more_fuel =
      run_all_round zero fuel t more_fuel (λ t' longer within. absurd (omega arith))
  run_all-ends (suc runs) fuel t more_runs more_fuel =
      run_all_round (suc runs) fuel t more_fuel
        (λ t' longer within. run_all-ends runs fuel t' (omega arith) (omega arith))

  -- When the flag is set after `n` calls at most and stays set, sysfs never lists the largest number of 32 bits, and
  -- scx_hotplug_seq never ends the process,
  -- `main` returns: a bound of `n + 1` runs of `n + 1` rounds is enough.
  pub main-returns :
      (runs fuel : ℕ)
      → n ≤ runs
      → n ≤ fuel
      → (status : ℕ) × (t : Trace) × (main os (suc runs) (suc fuel) [] ≡ returned status t)
  unfolding main
  main-returns runs fuel many enough =
      let (status, t, e, done) =
        returns-Holds (λ status t. Unit {0}) (main os (suc runs) (suc fuel) [])
          (then_run-Holds ⊥ ⊥ (λ result t. Unit {0}) (λ status t. Unit {0})
            (run_all os (suc runs) (suc fuel) []) _
            (run_all-ends runs fuel [] (omega arith) (omega arith)) (λ result t k. tt)) in
      (status, t, e)
