-- ===== src/Loader/Exit.antt =====
-- The status with which the process exits.
use lunar_sched.Base.{
  ℕ, zero, suc, ◌≡◌, refl, inl, inr, Bool, true, false, not, [], ◌∷◌, Bool-cases, if◌then◌else◌,
  if_cases,
}
use lunar_sched.ExitInfo.{uei_report, uei_ecode_restart, uei_exited}
use lunar_sched.Loader.{
  Os, Trace, returned, RunResult, stopped, restart, failed, wait_for_end, run_all, main,
  exit_status, read_stop,
}
use lunar_sched.Loader.Logic.{Holds, returned-Holds, then_run-Holds, Points, Rules}
use lunar_sched.Loader.Rounds.{round-Holds}

-- Whether the flag was set when it was last read.
abbrev pub asked_to_stop : Trace → Bool
asked_to_stop [] = false
asked_to_stop (read_stop b ∷ t) = b
asked_to_stop (_ ∷ t) = asked_to_stop t

abbrev Asked : Bool → Trace → Type 0
Asked b t = asked_to_stop t ≡ b

-- A run that was stopped has seen the flag.
abbrev is_stopped : RunResult → Bool
is_stopped stopped = true
is_stopped restart = false
is_stopped failed = false

module _ (os : Os) where
  wait_for_end-Asked :
      (fuel : ℕ) (t : Trace)
      → Asked false t
      → Holds (Unit {0}) (Unit {0}) (λ ejected. Asked (not ejected)) (wait_for_end os fuel t)
  unfolding wait_for_end
  wait_for_end-Asked zero t h = tt
  wait_for_end-Asked (suc fuel) t h = elim (Bool-cases (os.stop t)) [
    | inl e ↦ rw e refl
    | inr e ↦ elim (Bool-cases (uei_exited (os.uei (read_stop false ∷ t)))) [
      | inl k ↦ rw (e, k) refl
      | inr k ↦ rw (e, k) (wait_for_end-Asked fuel _ refl)
    ]
  ]

  points : Points
  points = record {
    Start = Asked false;
    Opened = Asked false;
    Ready = Asked false;
    Loaded = Asked false;
    Running = Asked false;
    Waited = λ ejected. Asked (not ejected);
    Done = λ result. Asked (is_stopped result);
  }

  rules : (fuel : ℕ) → Rules os fuel (Unit {0}) (Unit {0}) points
  unfolding points
  rules fuel = record {
    absent = λ t h. h;
    opens = λ t h. h;
    undefined = λ t r e. tt;
    aborts = λ t e. tt;
    readies = λ t seq s d h. h;
    unready = λ t seq s d h. h;
    loads = λ t err e h. h;
    load_fails = λ t err e h. h;
    attaches = λ t err e h. h;
    attach_fails = λ t err e h. h;
    waits = wait_for_end-Asked fuel;
    stops = λ t h. h;
    ejects = λ t h.
        if_cases (λ result. Asked (is_stopped result) t)
          (uei_ecode_restart (uei_report (os.uei t)).1) restart failed (λ e. h) (λ e. h);
  }

  run_all-Asked :
      (runs fuel : ℕ) (t : Trace)
      → Asked false t
      → Holds
          (Unit {0})
          (Unit {0})
          (λ result t'. exit_status os result ≡ (if asked_to_stop t' then 0 else 1))
          (run_all os runs fuel t)
  unfolding run_all points
  run_all-Asked zero fuel t h = tt
  run_all-Asked (suc runs) fuel t h =
      round-Holds os fuel (Unit {0}) (Unit {0}) points (rules fuel)
        (record {
          Told = λ t. Unit {0};
          Again = Asked false;
          Final = λ result t'. exit_status os result ≡ (if asked_to_stop t' then 0 else 1);
        })
        (record {
          stops = λ t k. rw k refl;
          fails = λ t k. rw k refl;
          told = λ t k. tt;
          silent = λ t k. tt;
          ends = λ t k. refl;
          repeats = λ t e k. refl;
        })
        runs (run_all-Asked runs fuel) t h

  -- When `main` returns, its status is 0 if the flag of the signal handler was set when it was last read, else 1.
  pub main-exit_status :
      (runs fuel status : ℕ) (t : Trace)
      → main os runs fuel [] ≡ returned status t
      → status ≡ (if asked_to_stop t then 0 else 1)
  unfolding main
  main-exit_status runs fuel status t e =
      returned-Holds (Unit {0}) (λ status t. status ≡ (if asked_to_stop t then 0 else 1))
        (main os runs fuel []) status t e
        (then_run-Holds (Unit {0}) (Unit {0})
          (λ result t'. exit_status os result ≡ (if asked_to_stop t' then 0 else 1))
          (λ status t. status ≡ (if asked_to_stop t then 0 else 1)) (run_all os runs fuel []) _
          (run_all-Asked runs fuel [] refl) (λ result t k. k))
