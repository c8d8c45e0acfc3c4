-- ===== src/Duty/Window.antt =====
-- The two sums stay within two windows, and the duty is the exact share of the run time.
use native.Mathlib.Nat.{div-lt_iff_lt-mul, div-mul-le_self, lt-mul-div-succ}
use lunar_sched.Base.{ℕ, ◌+◌, ◌*◌, ◌/◌, ◌≤◌, ◌<◌, ◌≡◌, arith, add64, shl64}
use lunar_sched.Datatypes.{TaskCtx}
use lunar_sched.Defines.{duty_window_ns}
use lunar_sched.Duty.{task_duty, duty_account}

abbrev pub InWindow : TaskCtx → Type 0
InWindow t = t.run_acc + t.sleep_acc ≤ 2 * duty_window_ns

pub duty_account-InWindow :
    (t : TaskCtx) (run slept : ℕ) → InWindow t → InWindow (duty_account t run slept)
unfolding duty_account
duty_account-InWindow t run slept h = ground arith

share-lt : (r s : ℕ) → r * 1024 / (r + s + 1) < 1024
share-lt r s = (div-lt_iff_lt-mul {k = r + s + 1} (omega arith)).1 (omega arith)

-- In the window nothing wraps around.
pub task_duty-share :
    (t : TaskCtx) → InWindow t → task_duty t ≡ t.run_acc * 1024 / (t.run_acc + t.sleep_acc + 1)
unfolding task_duty
task_duty-share t h =
    let shifted : shl64 t.run_acc 10 ≡ t.run_acc * 1024 = omega arith in
    let total : add64 (add64 t.run_acc t.sleep_acc) 1 ≡ t.run_acc + t.sleep_acc + 1 = omega arith in
    rw (shifted, total) (omega (arith, share-lt t.run_acc t.sleep_acc))

-- With sums in the window, the duty is the run time's share of both sums, plus 1, in 1/1024, rounded
-- down; it is below 1024.
pub task_duty_floor :
    (t : TaskCtx)
    → InWindow t
    → (task_duty t * (t.run_acc + t.sleep_acc + 1) ≤ t.run_acc * 1024)
      × (t.run_acc * 1024 < (t.run_acc + t.sleep_acc + 1) * (task_duty t + 1))
      × (task_duty t < 1024)
task_duty_floor t h =
    rw (task_duty-share t h)
      (div-mul-le_self _ _, lt-mul-div-succ _ (omega arith), share-lt t.run_acc t.sleep_acc)
