-- ===== src/Crit.antt =====
-- source/helpers.h: the crit score of a task, from how often it is woken and wakes others; and the
-- base-2 logarithm of include/scx/common.bpf.h that it uses.
pub mod Log2
pub mod Score
use lunar_sched.Base.{
  ℕ, ◌+◌, ◌-◌, ◌*◌, ◌/◌, ◌^◌, bit_or, ltb, ◌==◌, add64, sub64, shr, u32, u64, if◌then◌else◌,
}
use lunar_sched.Datatypes.{TaskCtx}
use lunar_sched.Defines.{crit_interval_min, crit_interval_ref, crit_max}

-- `(v > limit) << k`.
shift_of : ℕ → ℕ → ℕ → ℕ
shift_of limit k v = if ltb limit v then 1 * 2 ^ k else 0 * 2 ^ k

-- The lines of `log2_u32`, each with what follows it.
log2_bits2 : ℕ → ℕ → ℕ
unfolding shift_of
log2_bits2 v r = let s : ℕ = shift_of 0x3 1 v in bit_or (bit_or r s) (shr (shr v s) 1)

log2_bits4 : ℕ → ℕ → ℕ
unfolding shift_of log2_bits2
log2_bits4 v r = let s : ℕ = shift_of 0xf 2 v in log2_bits2 (shr v s) (bit_or r s)

log2_bits8 : ℕ → ℕ → ℕ
unfolding shift_of
log2_bits8 v r = let s : ℕ = shift_of 0xff 3 v in log2_bits4 (shr v s) (bit_or r s)

log2_u32 : ℕ → ℕ
unfolding shift_of
log2_u32 v = let r : ℕ = shift_of 0xffff 4 v in log2_bits8 (shr v r) r

log2_u64 : ℕ → ℕ
log2_u64 v =
    let hi : ℕ = u32 (shr v 32) in if hi == 0 then log2_u32 (u32 v) + 1 else log2_u32 hi + 32 + 1

pub ilog2 : ℕ → ℕ
ilog2 v = if v == 0 then 0 else log2_u64 v - 1

unfoldable pub exponentially_weighted_moving_avg : ℕ → ℕ → ℕ
exponentially_weighted_moving_avg old sample = add64 (sub64 old (shr old 2)) (shr sample 2)

unfoldable pub elapsed : ℕ → ℕ → ℕ
elapsed now last = if ltb last now then now - last else 0

unfoldable pub clamp_interval : ℕ → ℕ
clamp_interval interval =
    if ltb interval crit_interval_min
    then crit_interval_min
    else if ltb crit_interval_ref interval
    then crit_interval_ref
    else interval

pub effective_interval : ℕ → ℕ → ℕ → ℕ
unfolding clamp_interval elapsed
effective_interval avg last now =
    let since : ℕ = elapsed now last in
    clamp_interval (if ltb (u64 (avg * 8)) since then since else avg)

unfoldable pub calc_crit : TaskCtx → ℕ → ℕ
calc_crit t now =
    let woken : ℕ = effective_interval t.wait_interval t.last_woken_at now in
    let wakes : ℕ = effective_interval t.wake_interval t.last_wake_at now in
    let crit : ℕ = u32 (ilog2 (crit_interval_ref / woken) + ilog2 (crit_interval_ref / wakes)) in
    if ltb crit_max crit then crit_max else crit
