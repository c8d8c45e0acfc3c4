-- ===== src/ExitInfo.antt =====
-- include/scx/user_exit_info_common.h, user_exit_info.h and user_exit_info.bpf.h: how the scheduler tells the loader
-- that the kernel ejected it; source/lunar.bpf.c: `lunar_exit`.
pub mod Restart
use lunar_sched.Base.{
  ℕ, ◌+◌, ◌-◌, ◌*◌, ◌^◌, Bool, true, false, not, Option, none, some, List, [], ◌∷◌, ◌++◌, bit_and,
  ◌==◌, if◌then◌else◌,
}
use lunar_sched.Base.Int.{ℤ, pos, negsuc, is_zero, leb_ℤ}
use lunar_sched.Text.{Bytes}

abbrev pub uei_reason_len : ℕ
uei_reason_len = 128

abbrev pub uei_msg_len : ℕ
uei_msg_len = 1024

abbrev pub uei_dump_dfl_len : ℕ
uei_dump_dfl_len = 32768

-- The strings without their final NUL. `exit_code` is the 64 bits of the s64; the dump is an array beside it, which
-- has `dump_len` bytes.
pub record UserExitInfo : Type 0 where
  pub kind : ℤ
  pub exit_cpu : ℤ
  pub exit_code : ℕ
  pub reason : Bytes
  pub msg : Bytes
  pub dump : Bytes
  pub dump_len : ℕ

-- What the kernel passes; a field that it does not have is `none`.
pub record ScxExitInfo : Type 0 where
  pub kind : ℤ
  pub exit_code : Option ℕ
  pub exit_cpu : Option ℤ
  pub reason : Bytes
  pub msg : Bytes
  pub dump : Bytes

-- The exit info as the program defines it: no bytes are written yet.
abbrev pub uei_define : UserExitInfo
uei_define = record {
  kind = pos 0;
  exit_cpu = pos 0;
  exit_code = 0;
  reason = [];
  msg = [];
  dump = [];
  dump_len = 0;
}

-- The size of the dump that an ops table asks for, or the default.
abbrev pub uei_set_size : ℕ → UserExitInfo → UserExitInfo
uei_set_size exit_dump_len uei = record uei {
  dump_len = if exit_dump_len == 0 then uei_dump_dfl_len else exit_dump_len;
}

abbrev pub exit_code_of : Option ℕ → ℕ → ℕ
exit_code_of none old = old
exit_code_of (some code) old = code

abbrev pub exit_cpu_of : Option ℤ → ℤ
exit_cpu_of none = negsuc 0
exit_cpu_of (some cpu) = cpu

-- `read_str size s` is what bpf_probe_read_kernel_str leaves in a buffer of `size` bytes.
unfoldable pub uei_record : (ℕ → Bytes → Bytes) → ScxExitInfo → UserExitInfo → UserExitInfo
uei_record read_str ei uei = record {
  reason = read_str uei_reason_len ei.reason;
  msg = read_str uei_msg_len ei.msg;
  dump = read_str uei.dump_len ei.dump;
  dump_len = uei.dump_len;
  exit_code = exit_code_of ei.exit_code uei.exit_code;
  exit_cpu = exit_cpu_of ei.exit_cpu;
  kind = ei.kind;
}

abbrev pub lunar_exit : (ℕ → Bytes → Bytes) → ScxExitInfo → UserExitInfo → UserExitInfo
lunar_exit read_str ei uei = uei_record read_str ei uei

-- The kind as a condition.
abbrev pub uei_exited : UserExitInfo → Bool
uei_exited uei = not (is_zero uei.kind)

pub data Line : Type 0 where
  debug_dump : Bytes → Line
  exit_reason : Bytes → Line
  exit_msg : Bytes → Line
  on_cpu : ℤ → Line

abbrev pub line_unless_empty : (Bytes → Line) → Bytes → List Line
line_unless_empty line [] = []
line_unless_empty line (c ∷ s) = line (c ∷ s) ∷ []

-- What is printed, and the exit code.
unfoldable pub uei_report : UserExitInfo → List Line × ℕ
uei_report uei = (
  line_unless_empty debug_dump uei.dump
      ++ exit_reason uei.reason ∷ line_unless_empty exit_msg uei.msg
      ++ (if leb_ℤ (pos 0) uei.exit_cpu then on_cpu uei.exit_cpu ∷ [] else []),
  uei.exit_code,
)

abbrev pub scx_ecode_rsn_hotplug : ℕ
scx_ecode_rsn_hotplug = 2 ^ 32

abbrev pub scx_ecode_act_restart : ℕ
scx_ecode_act_restart = 2 ^ 48

abbrev pub uei_ecode_user_mask : ℕ
uei_ecode_user_mask = 2 ^ 32 - 1

abbrev pub uei_ecode_sys_rsn_mask : ℕ
uei_ecode_sys_rsn_mask = (2 ^ 16 - 1) * 2 ^ 32

abbrev pub uei_ecode_sys_act_mask : ℕ
uei_ecode_sys_act_mask = (2 ^ 16 - 1) * 2 ^ 48

abbrev pub uei_ecode_user : ℕ → ℕ
uei_ecode_user ecode = bit_and ecode uei_ecode_user_mask

abbrev pub uei_ecode_sys_rsn : ℕ → ℕ
uei_ecode_sys_rsn ecode = bit_and ecode uei_ecode_sys_rsn_mask

abbrev pub uei_ecode_sys_act : ℕ → ℕ
uei_ecode_sys_act ecode = bit_and ecode uei_ecode_sys_act_mask

unfoldable pub uei_ecode_restart : ℕ → Bool
uei_ecode_restart ecode = uei_ecode_sys_act ecode == scx_ecode_act_restart
