-- ===== src/Compat.antt =====
-- include/bpf_experimental.h: whether a callback runs in a task or in an interrupt.
pub mod Contexts
pub mod Lending
pub mod Waking
use lunar_sched.Base.{
  ℕ, ◌+◌, ◌-◌, ◌*◌, ◌^◌, Bool, true, false, not, Option, bit_and, bit_or, ◌==◌, if◌then◌else◌,
}
use lunar_sched.Boost.{Context}
use lunar_sched.Datatypes.{Task}

abbrev pub preempt_bits : ℕ
preempt_bits = 8

abbrev pub softirq_bits : ℕ
softirq_bits = 8

abbrev pub hardirq_bits : ℕ
hardirq_bits = 4

abbrev pub nmi_bits : ℕ
nmi_bits = 4

abbrev pub preempt_shift : ℕ
preempt_shift = 0

abbrev pub softirq_shift : ℕ
softirq_shift = preempt_shift + preempt_bits

abbrev pub hardirq_shift : ℕ
hardirq_shift = softirq_shift + softirq_bits

abbrev pub nmi_shift : ℕ
nmi_shift = hardirq_shift + hardirq_bits

abbrev pub irq_mask : ℕ → ℕ
irq_mask x = 2 ^ x - 1

abbrev pub softirq_mask : ℕ
softirq_mask = irq_mask softirq_bits * 2 ^ softirq_shift

abbrev pub hardirq_mask : ℕ
hardirq_mask = irq_mask hardirq_bits * 2 ^ hardirq_shift

abbrev pub nmi_mask : ℕ
nmi_mask = irq_mask nmi_bits * 2 ^ nmi_shift

abbrev pub softirq_offset : ℕ
softirq_offset = 2 ^ softirq_shift

pub data Target : Type 0 where
  x86 : Target
  arm64 : Target
  other_target : Target

-- What the cpu and its current task tell: the counters, as words of 32 bits, and which of them this kernel has.
pub record CpuState : Type 0 where
  pub target : Target
  pub has_preempt_count : Bool
  pub preempt_count : ℕ
  pub has_pcpu_hot : Bool
  pub pcpu_hot : ℕ
  pub thread_count : ℕ
  pub preempt_rt : Bool
  pub softirq_disable_cnt : ℕ

unfoldable pub get_preempt_count : CpuState → ℕ
get_preempt_count c = elim c.target [
  | x86 ↦ if c.has_preempt_count then c.preempt_count else if c.has_pcpu_hot then c.pcpu_hot else 0
  | arm64 ↦ c.thread_count
  | other_target ↦ 0
]

unfoldable pub bpf_in_interrupt : CpuState → ℕ
bpf_in_interrupt c =
    let pcnt : ℕ = get_preempt_count c in
    if not c.preempt_rt
    then bit_and pcnt (bit_or nmi_mask (bit_or hardirq_mask softirq_mask))
    else bit_or (bit_and pcnt (bit_or nmi_mask hardirq_mask))
        (bit_and c.softirq_disable_cnt softirq_mask)

unfoldable pub bpf_in_task : CpuState → Bool
bpf_in_task c =
    let pcnt : ℕ = get_preempt_count c in
    if not c.preempt_rt
    then bit_and pcnt (bit_or nmi_mask (bit_or hardirq_mask softirq_offset)) == 0
    else bit_or (bit_and pcnt (bit_or nmi_mask hardirq_mask))
        (bit_and (bit_and c.softirq_disable_cnt softirq_mask) softirq_offset)
      == 0

-- The context in which a callback runs on `cpu`.
abbrev pub context_of : CpuState → ℕ → Option Task → Context
context_of c cpu current = record {
  cpu = cpu;
  in_task = bpf_in_task c;
  in_interrupt = not (bpf_in_interrupt c == 0);
  current = current;
}
