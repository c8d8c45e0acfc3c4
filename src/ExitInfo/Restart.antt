-- ===== src/ExitInfo/Restart.antt =====
-- The exit code that the kernel gives, as the loader reads it.
use lunar_sched.Base.{
  ℕ, ◌+◌, ◌-◌, ◌*◌, ◌/◌, ◌%◌, ◌^◌, ◌<◌, ◌≡◌, refl, ap, ◌∙◌, not, some, ◌==◌, arith,
}
use lunar_sched.Base.Bits.{bit_and_high, bit_and_low}
use lunar_sched.Base.Int.{is_zero}
use lunar_sched.ExitInfo.{
  UserExitInfo, ScxExitInfo, exit_code_of, scx_ecode_act_restart, lunar_exit, uei_record,
  uei_exited, uei_report, uei_ecode_restart, uei_ecode_user, uei_ecode_sys_rsn, uei_ecode_sys_act,
}
use lunar_sched.Text.{Bytes}

user_bits : (code : ℕ) → uei_ecode_user code ≡ code % 2 ^ 32
user_bits code = bit_and_low 32 code

reason_bits : (code : ℕ) → uei_ecode_sys_rsn code ≡ code / 2 ^ 32 % 2 ^ 16 * 2 ^ 32
reason_bits code =
    bit_and_high 32 code (2 ^ 16 - 1) ∙ ap (λ x. x * 2 ^ 32) (bit_and_low 16 (code / 2 ^ 32))

action_bits : (code : ℕ) → uei_ecode_sys_act code ≡ code / 2 ^ 48 % 2 ^ 16 * 2 ^ 48
action_bits code =
    bit_and_high 48 code (2 ^ 16 - 1) ∙ ap (λ x. x * 2 ^ 48) (bit_and_low 16 (code / 2 ^ 48))

restart_bits :
    (code : ℕ)
    → code < 2 ^ 64
    → (uei_ecode_sys_act code == scx_ecode_act_restart) ≡ (code / 2 ^ 48 == 1)
restart_bits code h = ground (arith, action_bits code)

-- The three parts of an exit code of 64 bits (user code, reason, action) add up to it.
pub uei_ecode_parts :
    (code : ℕ)
    → code < 2 ^ 64
    → uei_ecode_user code + uei_ecode_sys_rsn code + uei_ecode_sys_act code ≡ code
uei_ecode_parts code h = omega (arith, user_bits code, reason_bits code, action_bits code)

pub uei_report-lunar_exit :
    (read_str : ℕ → Bytes → Bytes) (ei : ScxExitInfo) (uei : UserExitInfo) (code : ℕ)
    → ei.exit_code ≡ some code
    → (uei_report (lunar_exit read_str ei uei)).1 ≡ code
unfolding uei_record uei_report
uei_report-lunar_exit read_str ei uei code e = ap (λ o. exit_code_of o uei.exit_code) e

-- The loader sees an exit of `lunar_exit` exactly when the kernel's kind of exit is not 0, and it then restarts exactly
-- when the upper 16 bits of the kernel's exit code are 1.
pub lunar_exit-uei_ecode_restart :
    (read_str : ℕ → Bytes → Bytes) (ei : ScxExitInfo) (uei : UserExitInfo) (code : ℕ)
    → ei.exit_code ≡ some code
    → code < 2 ^ 64
    → (uei_exited (lunar_exit read_str ei uei) ≡ not (is_zero ei.kind))
      × (uei_ecode_restart (uei_report (lunar_exit read_str ei uei)).1 ≡ (code / 2 ^ 48 == 1))
unfolding uei_record uei_report uei_ecode_restart
lunar_exit-uei_ecode_restart read_str ei uei code e h = (
  refl,
  ap (λ o. uei_ecode_sys_act (exit_code_of o uei.exit_code) == scx_ecode_act_restart) e
      ∙ restart_bits code h,
)
