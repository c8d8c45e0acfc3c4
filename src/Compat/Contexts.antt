-- ===== src/Compat/Contexts.antt =====
-- Which bits of the counters tell an interrupt.
use lunar_sched.Base.{
  ℕ, ◌+◌, ◌-◌, ◌*◌, ◌/◌, ◌%◌, ◌^◌, ◌≡◌, refl, ap, ◌∙◌, ◌↔◌, true, false, not, Option, bit_and,
  bit_or, ◌==◌, ==→eq, arith, Bool-cases, inl, inr, if◌then◌else◌,
}
use lunar_sched.Base.Bits.{bit_and_high, bit_and_low, bit_and_low_digit, le-bit_or}
use lunar_sched.Compat.{
  CpuState, get_preempt_count, bpf_in_interrupt, bpf_in_task, context_of, softirq_mask,
  hardirq_mask, nmi_mask, softirq_offset,
}
use lunar_sched.Datatypes.{Task}

-- The bits from `shift` on, `count` of them.
abbrev pub field : (shift count a : ℕ) → ℕ
field shift count a = a / 2 ^ shift % 2 ^ count

mask-field :
    (shift count a : ℕ) → bit_and a ((2 ^ count - 1) * 2 ^ shift) ≡ field shift count a * 2 ^ shift
mask-field shift count a =
    bit_and_high shift a (2 ^ count - 1)
    ∙ ap (λ x. x * 2 ^ shift) (bit_and_low count (a / 2 ^ shift))

-- Two numbers have no bit together exactly when neither has one.
bit_or_none : (a b : ℕ) → (bit_or a b ≡ 0) ↔ ((a ≡ 0) × (b ≡ 0))
bit_or_none a b =
    (λ e. (omega (arith, le-bit_or a b), omega (arith, le-bit_or a b)), λ (e, k). rw (e, k) refl)

interrupt_bits :
    (a : ℕ) → bit_and a (bit_or nmi_mask (bit_or hardirq_mask softirq_mask)) ≡ field 8 16 a * 2 ^ 8
interrupt_bits a = mask-field 8 16 a

hard_bits : (a : ℕ) → bit_and a (bit_or nmi_mask hardirq_mask) ≡ field 16 8 a * 2 ^ 16
hard_bits a = mask-field 16 8 a

soft_bits : (a : ℕ) → bit_and a softirq_mask ≡ field 8 8 a * 2 ^ 8
soft_bits a = mask-field 8 8 a

serving_bit : (a : ℕ) → bit_and (bit_and a softirq_mask) softirq_offset ≡ a / 2 ^ 8 % 2 * 2 ^ 8
serving_bit a = omega (arith, mask-field 8 1 (bit_and a softirq_mask), soft_bits a)

task_bits :
    (a : ℕ)
    → bit_and a (bit_or nmi_mask (bit_or hardirq_mask softirq_offset))
      ≡ field 16 8 a * 2 ^ 16 + a / 2 ^ 8 % 2 * 2 ^ 8
task_bits a = omega (
  arith,
  bit_and_high 8 a 65281,
  bit_and_low_digit (a / 2 ^ 8) 65281,
  bit_and_high 7 (a / 2 ^ 8 / 2) 255,
  bit_and_low 8 (a / 2 ^ 8 / 2 / 2 ^ 7),
)

-- The counter of softirqs: with PREEMPT_RT that of the task, else that of the cpu.
abbrev pub soft_count : CpuState → ℕ
soft_count c = if c.preempt_rt then c.softirq_disable_cnt else get_preempt_count c

rt_interrupt :
    (p s : ℕ)
    → (bit_or (bit_and p (bit_or nmi_mask hardirq_mask)) (bit_and s softirq_mask) ≡ 0)
      ↔ ((field 16 8 p ≡ 0) × (field 8 8 s ≡ 0))
rt_interrupt p s =
    let (apart, together) =
      bit_or_none (bit_and p (bit_or nmi_mask hardirq_mask)) (bit_and s softirq_mask) in
    (
      λ e. (omega (arith, apart e, hard_bits p), omega (arith, apart e, soft_bits s)),
      λ (hard, soft). together (omega (arith, hard, hard_bits p), omega (arith, soft, soft_bits s)),
    )

rt_task :
    (p s : ℕ)
    → (bit_or
          (bit_and p (bit_or nmi_mask hardirq_mask))
          (bit_and (bit_and s softirq_mask) softirq_offset)
        ≡ 0)
      ↔ ((field 16 8 p ≡ 0) × (s / 2 ^ 8 % 2 ≡ 0))
rt_task p s =
    let (apart, together) =
      bit_or_none (bit_and p (bit_or nmi_mask hardirq_mask))
        (bit_and (bit_and s softirq_mask) softirq_offset) in
    (
      λ e. (omega (arith, apart e, hard_bits p), omega (arith, apart e, serving_bit s)),
      λ (hard, soft).
          together (omega (arith, hard, hard_bits p), omega (arith, soft, serving_bit s)),
    )

in_interrupt_bits :
    (c : CpuState)
    → (bpf_in_interrupt c ≡ 0)
      ↔ ((field 16 8 (get_preempt_count c) ≡ 0) × (field 8 8 (soft_count c) ≡ 0))
unfolding bpf_in_interrupt get_preempt_count
in_interrupt_bits c = elim (Bool-cases c.preempt_rt) [
  | inl e ↦
      rw (e, bpf_in_interrupt, soft_count)
        (rt_interrupt (get_preempt_count c) c.softirq_disable_cnt)
  | inr e ↦
      rw (e, bpf_in_interrupt, soft_count)
        (
          λ k. (
            omega (arith, interrupt_bits (get_preempt_count c)),
            omega (arith, interrupt_bits (get_preempt_count c)),
          ),
          λ (hard, soft). omega (arith, hard, soft, interrupt_bits (get_preempt_count c)),
        )
]

in_task_bits :
    (c : CpuState)
    → (bpf_in_task c ≡ true)
      ↔ ((field 16 8 (get_preempt_count c) ≡ 0) × (soft_count c / 2 ^ 8 % 2 ≡ 0))
unfolding bpf_in_task get_preempt_count
in_task_bits c = elim (Bool-cases c.preempt_rt) [
  | inl e ↦
      rw (e, bpf_in_task, soft_count)
        (let (to, from) = rt_task (get_preempt_count c) c.softirq_disable_cnt in
          (λ k. to (==→eq _ _ k), λ k. ground (arith, from k)))
  | inr e ↦
      rw (e, bpf_in_task, soft_count)
        (
          λ k. (
            ground (arith, k, task_bits (get_preempt_count c)),
            ground (arith, k, task_bits (get_preempt_count c)),
          ),
          λ (hard, soft). ground (arith, hard, soft, task_bits (get_preempt_count c)),
        )
]

-- A callback is outside interrupts exactly when the bits of NMIs and hard interrupts are clear and softirqs are neither
-- served nor disabled; it is in a task exactly when the former are clear and no softirq is served. So outside
-- interrupts it is in a task.
pub context_of-bits :
    (c : CpuState) (cpu : ℕ) (current : Option Task)
    → (((context_of c cpu current).in_interrupt ≡ false)
        ↔ ((field 16 8 (get_preempt_count c) ≡ 0) × (field 8 8 (soft_count c) ≡ 0)))
      × (((context_of c cpu current).in_task ≡ true)
          ↔ ((field 16 8 (get_preempt_count c) ≡ 0) × (soft_count c / 2 ^ 8 % 2 ≡ 0)))
      × ((context_of c cpu current).in_interrupt ≡ false
          → (context_of c cpu current).in_task ≡ true)
context_of-bits c cpu current =
    let (clear, clear') = in_interrupt_bits c in
    let (task, task') = in_task_bits c in
    let outside : not (bpf_in_interrupt c == 0) ≡ false → bpf_in_interrupt c ≡ 0 =
      λ e. ground (arith, e) in
    (
      (λ e. clear (outside e), λ k. ground (arith, clear' k)),
      (task, task'),
      λ e. task' (omega (arith, clear (outside e)), omega (arith, clear (outside e))),
    )
