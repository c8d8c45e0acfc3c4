-- ===== src/Compat/Lending.antt =====
-- include/bpf_experimental.h and source/helpers.h: whose tier a wakeup lends, and who is noted as a waker, by the bits of
-- the cpu's counters and the tests on the current task.
use lunar_sched.Base.{
  ℕ, ◌/◌, ◌%◌, ◌^◌, ◌<◌, ◌≡◌, refl, sym, subst, ◌∙◌, ◌⊎◌, inl, inr, true, false, none, some, arith,
  Bool-cases, Option-cases, ltb, ◌==◌, ◌&&◌, ◌||◌,
}
use lunar_sched.Boost.{boost_from, boost_by, note_wake, record_wake_by}
use lunar_sched.Compat.{CpuState, get_preempt_count}
use lunar_sched.Compat.Contexts.{field, soft_count}
use lunar_sched.Cpus.{get_task_ctx}
use lunar_sched.Datatypes.{Task, TaskCtx}
use lunar_sched.Kernel.{World, put_task}
use lunar_sched.Tier.{effective_tier, sanitize_tier}

-- The bits of NMIs and of hard interrupts, the bit of the softirq that is served, and all bits of softirqs, those of
-- the sections that only disable them included.
abbrev pub hard : CpuState → ℕ
hard c = field 16 8 (get_preempt_count c)

abbrev pub serving : CpuState → ℕ
serving c = soft_count c / 2 ^ 8 % 2

abbrev pub softirqs : CpuState → ℕ
softirqs c = field 8 8 (soft_count c)

-- The current task lends its tier: the cpu is in no NMI and no hard interrupt and serves no softirq, the task is another
-- than the one woken, no idle task and no kernel thread, is known, and has a better tier.
pub record Lends (c : CpuState) (w : World) (waker p : Task) (t lender : TaskCtx) : Type 0 where
  pub no_interrupt : hard c ≡ 0
  pub no_softirq : serving c ≡ 0
  pub other : (waker.address == p.address) ≡ false
  pub awake : waker.pf_idle ≡ false
  pub user : waker.pf_kthread ≡ false
  pub known : get_task_ctx w waker ≡ some lender
  pub better : effective_tier (some lender) < effective_tier (some t)

-- The current task is noted as a waker: the cpu is in no NMI and no hard interrupt and neither serves nor disables
-- softirqs, and the task is another than the one woken and known.
pub record Records (c : CpuState) (w : World) (waker p : Task) (noted : TaskCtx) : Type 0 where
  pub no_interrupt : hard c ≡ 0
  pub no_softirqs : softirqs c ≡ 0
  pub other : (waker.pid == p.pid) ≡ false
  pub known : get_task_ctx w waker ≡ some noted

abbrev pub LendsOrNot : CpuState → World → Task → Task → TaskCtx → TaskCtx → Type 0
LendsOrNot c w waker p t t' =
    ((lender : TaskCtx) × Lends c w waker p t lender
      × (t' ≡ record t { boost_dsq_type = effective_tier (some lender); boost_used = 0 }))
    ⊎ (((lender : TaskCtx) → ¬ Lends c w waker p t lender) × (t' ≡ t))

abbrev pub RecordsOrNot : CpuState → World → Task → Task → ℕ → World → Type 0
RecordsOrNot c w waker p now w' =
    ((noted : TaskCtx) × Records c w waker p noted
      × (w' ≡ put_task waker.address (note_wake now noted) w))
    ⊎ (((noted : TaskCtx) → ¬ Records c w waker p noted) × (w' ≡ w))

better_tier :
    (b : ℕ) (t : TaskCtx)
    → (ltb b (sanitize_tier t.current_dsq_type) && ltb b t.boost_dsq_type) ≡ true
    → b < effective_tier (some t)
unfolding effective_tier
better_tier b t e = ground arith

no_better_tier :
    (b : ℕ) (t : TaskCtx)
    → (ltb b (sanitize_tier t.current_dsq_type) && ltb b t.boost_dsq_type) ≡ false
    → ¬ (b < effective_tier (some t))
unfolding effective_tier
no_better_tier b t e h = ground arith

module _ (c : CpuState) (waker p : Task) (w : World) where
  boost_from-LendsOrNot :
      (t lender : TaskCtx)
      → hard c ≡ 0
      → serving c ≡ 0
      → (waker.address == p.address || waker.pf_idle) ≡ false
      → waker.pf_kthread ≡ false
      → get_task_ctx w waker ≡ some lender
      → LendsOrNot c w waker p t (boost_from lender t)
  unfolding boost_from
  boost_from-LendsOrNot t lender h s apart user known =
      let b : ℕ = effective_tier (some lender) in
      elim (Bool-cases (ltb b (sanitize_tier t.current_dsq_type) && ltb b t.boost_dsq_type)) [
        | inl e ↦ rw e (
            inl (
              lender,
              record {
                no_interrupt = h;
                no_softirq = s;
                other = ground (arith, apart);
                awake = ground (arith, apart);
                user = user;
                known = known;
                better = better_tier b t e;
              },
              refl,
            ))
        | inr e ↦ rw e (
            inr (
              (λ l k. no_better_tier b t e (
                  subst (λ o. effective_tier o < effective_tier (some t)) (sym k.known ∙ known)
                    k.better)),
              refl,
            ))
      ]

  boost_by-known :
      (t lender : TaskCtx)
      → (waker.address == p.address || waker.pf_idle) ≡ false
      → waker.pf_kthread ≡ false
      → get_task_ctx w waker ≡ some lender
      → boost_by w waker p t ≡ boost_from lender t
  unfolding boost_by
  boost_by-known t lender apart user known = rw (apart, known, user) refl

  boost_by-kthread :
      (t : TaskCtx)
      → (waker.address == p.address || waker.pf_idle) ≡ false
      → waker.pf_kthread ≡ true
      → boost_by w waker p t ≡ t
  unfolding boost_by
  boost_by-kthread t apart barred = rw (apart, barred) refl

  boost_by-unknown :
      (t : TaskCtx)
      → (waker.address == p.address || waker.pf_idle) ≡ false
      → waker.pf_kthread ≡ false
      → get_task_ctx w waker ≡ none
      → boost_by w waker p t ≡ t
  unfolding boost_by
  boost_by-unknown t apart user unknown = rw (apart, unknown, user) refl

  record_wake_by-unknown :
      (now : ℕ)
      → (waker.pid == p.pid) ≡ false
      → get_task_ctx w waker ≡ none
      → record_wake_by waker p now w ≡ w
  unfolding record_wake_by
  record_wake_by-unknown now other unknown = rw (other, unknown) refl

  record_wake_by-known :
      (now : ℕ) (noted : TaskCtx)
      → (waker.pid == p.pid) ≡ false
      → get_task_ctx w waker ≡ some noted
      → record_wake_by waker p now w ≡ put_task waker.address (note_wake now noted) w
  unfolding record_wake_by
  record_wake_by-known now noted other known = rw (other, known) refl

  pub boost_by-LendsOrNot :
      (t : TaskCtx) → hard c ≡ 0 → serving c ≡ 0 → LendsOrNot c w waker p t (boost_by w waker p t)
  unfolding boost_by
  boost_by-LendsOrNot t h s = elim (Bool-cases (waker.address == p.address || waker.pf_idle)) [
    | inl e ↦ rw e (inr ((λ l k. absurd (ground (arith, k.other, k.awake, e))), refl))
    | inr apart ↦ (elim (Bool-cases waker.pf_kthread) [
      | inl e ↦ inr ((λ l k. absurd (ground (arith, k.user, e))), boost_by-kthread t apart e)
      | inr user ↦ (elim (Option-cases (get_task_ctx w waker)) [
        | inl e ↦
            inr ((λ l k. absurd (ground (arith, k.known, e))), boost_by-unknown t apart user e)
        | inr (lender, known) ↦
            subst (LendsOrNot c w waker p t) (sym (boost_by-known t lender apart user known))
              (boost_from-LendsOrNot t lender h s apart user known)
      ])
    ])
  ]

  pub record_wake_by-RecordsOrNot :
      (now : ℕ)
      → hard c ≡ 0
      → softirqs c ≡ 0
      → RecordsOrNot c w waker p now (record_wake_by waker p now w)
  unfolding record_wake_by
  record_wake_by-RecordsOrNot now h s = elim (Bool-cases (waker.pid == p.pid)) [
    | inl e ↦ rw e (inr ((λ n k. absurd (ground (arith, k.other, e))), refl))
    | inr other ↦ (elim (Option-cases (get_task_ctx w waker)) [
      | inl e ↦
          inr ((λ n k. absurd (ground (arith, k.known, e))), record_wake_by-unknown now other e)
      | inr (noted, known) ↦ inl (
        noted,
        record { no_interrupt = h; no_softirqs = s; other = other; known = known },
        record_wake_by-known now noted other known,
      )
    ])
  ]
