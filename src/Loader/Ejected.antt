-- ===== src/Loader/Ejected.antt =====
-- The loader and `lunar_exit` together.
use lunar_sched.Base.{
  ℕ, suc, ◌/◌, ◌^◌, ◌<◌, ◌≡◌, refl, ap, ◌∙◌, Bool, true, false, not, some, ◌==◌, ◌∷◌, if◌then◌else◌,
}
use lunar_sched.Base.Int.{is_zero}
use lunar_sched.ExitInfo.{
  UserExitInfo, ScxExitInfo, lunar_exit, uei_exited, uei_report, uei_ecode_restart,
}
use lunar_sched.ExitInfo.Restart.{lunar_exit-uei_ecode_restart, uei_report-lunar_exit}
use lunar_sched.Loader.{
  Os, then_run, result_of, destroy_and, ◌>>=◌, Trace, Outcome, returned, RunResult, restart, failed,
  wait_for_end, report, run_attached, said, running_well, read_stop, read_exited, reported, of_exit,
  destroyed,
}
use lunar_sched.Text.{Bytes}

-- While nobody asks the loader to stop, and after the kernel has ejected the scheduler through `lunar_exit` with a kind
-- of exit other than 0: the loader notices at its next look, prints and reports the exit, destroys the skeleton, and
-- the run ends with a restart when the upper 16 bits of the kernel's exit code are 1, else as failed.
pub lunar_exit-run_attached :
    (os : Os) (fuel : ℕ) (t : Trace) (read_str : ℕ → Bytes → Bytes) (ei : ScxExitInfo)
    (old : UserExitInfo) (code : ℕ)
    → ((t : Trace) → os.stop t ≡ false)
    → ((t : Trace) → os.uei t ≡ lunar_exit read_str ei old)
    → is_zero ei.kind ≡ false
    → ei.exit_code ≡ some code
    → code < 2 ^ 64
    → run_attached os (suc fuel) t
      ≡ returned (if code / 2 ^ 48 == 1 then restart else failed) (
          destroyed
          ∷ reported code
          ∷ said (of_exit (uei_report (lunar_exit read_str ei old)).0)
          ∷ read_exited true
          ∷ read_stop false
          ∷ said running_well
          ∷ t)
unfolding run_attached wait_for_end report
lunar_exit-run_attached os fuel t read_str ei old code quiet exit kind e small =
    ap (λ o. then_run o (λ ejected. result_of os ejected >>= destroy_and os)) waited
    ∙ ap after (exit t3)
    ∙ ap (λ r. ended recorded r (uei_report recorded).1) restarts
    ∙ ap (ended recorded (code / 2 ^ 48 == 1)) (uei_report-lunar_exit read_str ei old code e)
  where
    seen : uei_exited (lunar_exit read_str ei old) ≡ not (is_zero ei.kind)
    seen = (lunar_exit-uei_ecode_restart read_str ei old code e small).0

    restarts : uei_ecode_restart (uei_report (lunar_exit read_str ei old)).1 ≡ (code / 2 ^ 48 == 1)
    restarts = (lunar_exit-uei_ecode_restart read_str ei old code e small).1

    t2 : Trace
    t2 = read_stop false ∷ said running_well ∷ t

    t3 : Trace
    t3 = read_exited true ∷ t2

    noticed : uei_exited (os.uei t2) ≡ true
    noticed = ap uei_exited (exit t2) ∙ seen ∙ ap not kind

    waited : wait_for_end os (suc fuel) (said running_well ∷ t) ≡ returned true t3
    waited = rw (quiet (said running_well ∷ t), wait_for_end, noticed) refl

    recorded : UserExitInfo
    recorded = lunar_exit read_str ei old

    ended : UserExitInfo → Bool → ℕ → Outcome RunResult
    ended u again c =
        returned (if again then restart else failed)
          (destroyed ∷ reported c ∷ said (of_exit (uei_report u).0) ∷ t3)

    after : UserExitInfo → Outcome RunResult
    after u = ended u (uei_ecode_restart (uei_report u).1) (uei_report u).1
