-- ===== src/Duty/Bounds.antt =====
-- A task that only runs, or only sleeps, is seen as such after a few windows.
use native.Mathlib.Nat.{div-lt_iff_lt-mul, le-div_iff_mul-le}
use lunar_sched.Base.{ℕ, zero, suc, List, [], ◌∷◌, ◌+◌, ◌*◌, ◌≤◌, ◌<◌, ◌≡◌, arith}
use lunar_sched.Datatypes.{TaskCtx}
use lunar_sched.Defines.{duty_window_ns, duty_cap_normal, duty_cap_lc, duty_hyst}
use lunar_sched.Duty.{task_duty, duty_account}
use lunar_sched.Duty.Window.{InWindow, task_duty-share}
use lunar_sched.Text.{length}

-- Periods accounted one after another, newest first: the nanoseconds on a cpu and those asleep.
abbrev pub duty_periods : List (ℕ × ℕ) → TaskCtx → TaskCtx
duty_periods [] t = t
duty_periods ((run, slept) ∷ before) t = duty_account (duty_periods before t) run slept

-- Each of the periods is 100ms or more on a cpu, without sleep.
abbrev pub AllRun : List (ℕ × ℕ) → Type 0
AllRun [] = Unit {0}
AllRun ((run, slept) ∷ before) = (duty_window_ns ≤ run) × (slept ≡ 0) × AllRun before

-- Each of the periods is 100ms or more asleep.
abbrev pub AllSleep : List (ℕ × ℕ) → Type 0
AllSleep [] = Unit {0}
AllSleep ((run, slept) ∷ before) = (run ≡ 0) × (duty_window_ns ≤ slept) × AllSleep before

abbrev w : ℕ
w = duty_window_ns

-- One sum is at least `big`/16, the other at most `small`/16.
record Split (a b big small : ℕ) : Type 0 where
  within : a + b ≤ 2 * w
  least : big ≤ a * 16
  most : b * 16 ≤ small

-- What a full window on one side does to such bounds.
abbrev Shift : ℕ → ℕ → ℕ → ℕ → Type 0
Shift big small big' small' =
    (2 * big' + 16 ≤ big + 16 * w) × (small ≤ 2 * small') × (16 * w ≤ small' + big)

module _ (t : TaskCtx) (run : ℕ) {big small big' small' : ℕ} (full : w ≤ run)
    (shift : Shift big small big' small') where
  run_once :
      Split t.run_acc t.sleep_acc big small
      → let t' = duty_account t run 0 in Split t'.run_acc t'.sleep_acc big' small'
  unfolding duty_account
  run_once s = record {
    within = ground (arith, s.within);
    least = ground (arith, s.within, s.least);
    most = ground (arith, s.within, s.least, s.most);
  }

  sleep_once :
      Split t.sleep_acc t.run_acc big small
      → let t' = duty_account t 0 run in Split t'.sleep_acc t'.run_acc big' small'
  unfolding duty_account
  sleep_once s = record {
    within = ground (arith, s.within);
    least = ground (arith, s.within, s.least);
    most = ground (arith, s.within, s.least, s.most);
  }

-- The bounds after 0, 1, … full windows, in tenths of a window.
abbrev tenths : ℕ → ℕ
tenths n = n * 10_000_000

abbrev least_after : ℕ → ℕ
least_after zero = 0
least_after (suc zero) = 79
least_after (suc (suc zero)) = 119
least_after (suc (suc (suc zero))) = 139
least_after (suc (suc (suc (suc zero)))) = 149
least_after (suc (suc (suc (suc (suc zero))))) = 154
least_after (suc (suc (suc (suc (suc (suc n)))))) = 156

abbrev most_after : ℕ → ℕ
most_after zero = 320
most_after (suc zero) = 160
most_after (suc (suc zero)) = 81
most_after (suc (suc (suc zero))) = 41
most_after (suc (suc (suc (suc zero)))) = 21
most_after (suc (suc (suc (suc (suc zero))))) = 11
most_after (suc (suc (suc (suc (suc (suc n)))))) = 6

Shift-after :
    (n : ℕ)
    → Shift
        (tenths (least_after n))
        (tenths (most_after n))
        (tenths (least_after (suc n)))
        (tenths (most_after (suc n)))
Shift-after zero = omega arith
Shift-after (suc zero) = omega arith
Shift-after (suc (suc zero)) = omega arith
Shift-after (suc (suc (suc zero))) = omega arith
Shift-after (suc (suc (suc (suc zero)))) = omega arith
Shift-after (suc (suc (suc (suc (suc zero))))) = omega arith
Shift-after (suc (suc (suc (suc (suc (suc n)))))) = omega arith

abbrev After : ℕ → ℕ → ℕ → Type 0
After n a b = Split a b (tenths (least_after n)) (tenths (most_after n))

module _ (t : TaskCtx) (start : InWindow t) where
  run-After :
      (ps : List (ℕ × ℕ))
      → AllRun ps
      → let t' = duty_periods ps t in After (length ps) t'.run_acc t'.sleep_acc
  run-After [] h = record { within = start; least = omega arith; most = omega arith }
  run-After ((run, slept) ∷ ps) (full, none, h) =
      rw none (run_once (duty_periods ps t) run full (Shift-after (length ps)) (run-After ps h))

  sleep-After :
      (ps : List (ℕ × ℕ))
      → AllSleep ps
      → let t' = duty_periods ps t in After (length ps) t'.sleep_acc t'.run_acc
  sleep-After [] h = record { within = omega arith; least = omega arith; most = omega arith }
  sleep-After ((run, slept) ∷ ps) (none, full, h) =
      rw none
        (sleep_once (duty_periods ps t) slept full (Shift-after (length ps)) (sleep-After ps h))

least_late : (n : ℕ) → 4 ≤ n → (149 ≤ least_after n) × (most_after n ≤ 21)
least_late zero h = absurd (omega arith)
least_late (suc zero) h = absurd (omega arith)
least_late (suc (suc zero)) h = absurd (omega arith)
least_late (suc (suc (suc zero))) h = absurd (omega arith)
least_late (suc (suc (suc (suc zero)))) h = omega arith
least_late (suc (suc (suc (suc (suc zero))))) h = omega arith
least_late (suc (suc (suc (suc (suc (suc n)))))) h = omega arith

least_last : (n : ℕ) → 6 ≤ n → (least_after n ≡ 156) × (most_after n ≡ 6)
least_last zero h = absurd (omega arith)
least_last (suc zero) h = absurd (omega arith)
least_last (suc (suc zero)) h = absurd (omega arith)
least_last (suc (suc (suc zero))) h = absurd (omega arith)
least_last (suc (suc (suc (suc zero)))) h = absurd (omega arith)
least_last (suc (suc (suc (suc (suc zero))))) h = absurd (omega arith)
least_last (suc (suc (suc (suc (suc (suc n)))))) h = omega arith

-- From any two sums within the window, after four or more calls of duty_account one after another, each for a period
-- of running of 100ms or more without sleep, the duty is at least the NORMAL cap plus the hysteresis.
pub task_duty-duty_periods_run :
    (t : TaskCtx) (periods : List (ℕ × ℕ))
    → InWindow t
    → AllRun periods
    → 4 ≤ length periods
    → duty_cap_normal + duty_hyst ≤ task_duty (duty_periods periods t)
task_duty-duty_periods_run t periods start full late =
    let s : After (length periods) _ _ = run-After t start periods full in
    let big : (149 ≤ least_after (length periods)) × (most_after (length periods) ≤ 21) =
      least_late (length periods) late in
    rw (task_duty-share (duty_periods periods t) s.within)
      ((le-div_iff_mul-le (omega arith)).1 (omega (arith, s.least, s.most)))

-- From any two sums within the window, after six or more calls of duty_account one after another, each for a period of
-- sleep of 100ms or more without running, the duty is below the LC cap by more than the hysteresis.
pub task_duty-duty_periods_sleep :
    (t : TaskCtx) (periods : List (ℕ × ℕ))
    → InWindow t
    → AllSleep periods
    → 6 ≤ length periods
    → task_duty (duty_periods periods t) + duty_hyst < duty_cap_lc
task_duty-duty_periods_sleep t periods start full late =
    let s : After (length periods) _ _ = sleep-After t start periods full in
    let last : (least_after (length periods) ≡ 156) × (most_after (length periods) ≡ 6) =
      least_last (length periods) late in
    let within : InWindow (duty_periods periods t) = omega (arith, s.within) in
    let share : task_duty (duty_periods periods t) < 41 =
      rw (task_duty-share (duty_periods periods t) within)
        ((div-lt_iff_lt-mul (omega arith)).1 (omega (arith, s.least, s.most))) in
    omega arith
