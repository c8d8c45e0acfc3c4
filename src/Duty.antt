-- ===== src/Duty.antt =====
-- source/helpers.h: the accounting of run time and sleep time.
pub mod Bounds
pub mod Window
use lunar_sched.Base.{ℕ, ◌+◌, ◌*◌, ◌/◌, add64, shl64, shr, u32, ltb, if◌then◌else◌}
use lunar_sched.Datatypes.{TaskCtx}
use lunar_sched.Defines.{duty_window_ns}

pub task_duty : TaskCtx → ℕ
task_duty t = u32 (shl64 t.run_acc 10 / add64 (add64 t.run_acc t.sleep_acc) 1)

-- The two sums after a period, halved together when they exceed two windows.
unfoldable pub duty_account : TaskCtx → ℕ → ℕ → TaskCtx
duty_account t run slept =
    let run' : ℕ = if ltb duty_window_ns run then duty_window_ns else run in
    let slept' : ℕ = if ltb duty_window_ns slept then duty_window_ns else slept in
    let r : ℕ = add64 t.run_acc run' in
    let s : ℕ = add64 t.sleep_acc slept' in
    if ltb (2 * duty_window_ns) (add64 r s)
    then record t { run_acc = shr r 1; sleep_acc = shr s 1 }
    else record t { run_acc = r; sleep_acc = s }
