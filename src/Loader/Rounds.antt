-- ===== src/Loader/Rounds.antt =====
-- The same principle for a round of the loop of `main`.
use lunar_sched.Base.{ℕ, suc, ◌≡◌, inl, inr, true, false, ◌∷◌, Bool-cases}
use lunar_sched.Loader.{
  Os, Trace, M, ◌>>=◌, ◌>>◌, pure, RunResult, stopped, restart, failed, run_once, run_all,
  wants_restart, say_if, said, restarting, read_stop,
}
use lunar_sched.Loader.Logic.{Holds, then_run-Holds, Points, Rules, run_once-Holds}

-- What holds after the message on a restart, before another round, and after the last.
pub record RoundPoints : Type 1 where
  pub Told : Trace → Type 0
  pub Again : Trace → Type 0
  pub Final : RunResult → Trace → Type 0

pub record RoundRules (os : Os) (p : Points) (q : RoundPoints) : Type 0 where
  pub stops : (t : Trace) → p.Done stopped t → q.Final stopped t
  pub fails : (t : Trace) → p.Done failed t → q.Final failed t
  pub told : (t : Trace) → p.Done restart t → q.Told (said restarting ∷ read_stop false ∷ t)
  pub silent : (t : Trace) → p.Done restart t → q.Told (read_stop true ∷ t)
  pub ends : (t : Trace) → q.Told t → q.Final restart (read_stop true ∷ t)
  pub repeats : (t : Trace) → os.stop t ≡ false → q.Told t → q.Again (read_stop false ∷ t)

module _ (os : Os) (fuel : ℕ) (X U : Type 0) (p : Points) (r : Rules os fuel X U p)
    (q : RoundPoints) (s : RoundRules os p q) where
  end_of_round : ℕ → RunResult → M RunResult
  end_of_round runs result = do
    again ← wants_restart os result
    elim again [ true ↦ run_all os runs fuel | false ↦ pure result ]

  asked-Holds :
      (runs : ℕ)
      → ((t : Trace) → q.Again t → Holds X U q.Final (run_all os runs fuel t))
      → (t : Trace) → q.Told t
      → Holds X U q.Final (end_of_round runs restart t)
  unfolding end_of_round wants_restart
  asked-Holds runs more t h = elim (Bool-cases (os.stop t)) [
    | inl e ↦ rw e (s.ends t h)
    | inr e ↦ rw e (more _ (s.repeats t e h))
  ]

  restart-Holds :
      (runs : ℕ)
      → ((t : Trace) → q.Again t → Holds X U q.Final (run_all os runs fuel t))
      → (t : Trace) → p.Done restart t
      → Holds X U q.Final (
          (wants_restart os restart >>= λ telling.
          say_if os telling restarting >> end_of_round runs restart)
            t)
  unfolding wants_restart
  restart-Holds runs more t h = elim (Bool-cases (os.stop t)) [
    | inl e ↦ rw e (asked-Holds runs more _ (s.silent t h))
    | inr e ↦ rw e (asked-Holds runs more _ (s.told t h))
  ]

  pub round-Holds :
      (runs : ℕ)
      → ((t : Trace) → q.Again t → Holds X U q.Final (run_all os runs fuel t))
      → (t : Trace) → p.Start t
      → Holds X U q.Final (run_all os (suc runs) fuel t)
  unfolding run_all wants_restart end_of_round
  round-Holds runs more t h =
      then_run-Holds X U p.Done q.Final (run_once os fuel t) _ (run_once-Holds os fuel X U p r t h)
        rest
    where
      rest :
          (result : RunResult) (t : Trace)
          → p.Done result t
          → Holds X U q.Final (
              (wants_restart os result >>= λ telling.
              say_if os telling restarting >> end_of_round runs result)
                t)
      rest stopped t k = s.stops t k
      rest failed t k = s.fails t k
      rest restart t k = restart-Holds runs more t k
