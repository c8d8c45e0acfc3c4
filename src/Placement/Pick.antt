-- ===== src/Placement/Pick.antt =====
-- The cpu that `pick_enqueue_cpu` chooses.
use lunar_sched.Base.{
  ℕ, zero, suc, ◌+◌, ◌%◌, ◌<◌, ◌≡◌, ◌≢◌, refl, ◌⊎◌, inl, inr, true, Option, none, some, arith,
  Bool-cases, u32, if◌then◌else◌,
}
use lunar_sched.Base.Int.{ℤ, pos, negsuc}
use lunar_sched.Datatypes.{Task, TaskCtx, PickScratch}
use lunar_sched.Cpus.{cpu_taken_by_rt}
use lunar_sched.Defines.{balance_samples}
use lunar_sched.Dsq.{dsq_queued}
use lunar_sched.Kernel.{Machine, World, emit, draw_random, pick_idle, put_scratch}
use lunar_sched.Placement.{
  candidate, weigh, visit, scan, cpu_load_ahead, Picked, migrate, latency_tier, balance, pick_busy,
  pick_enqueue_cpu,
}

-- The best so far is the own cpu, or a candidate that is less loaded; its load is recorded.
module _ (m : Machine) (w : World) (p : Task) (tier cpu start budget : ℕ) where
  pub record Best (own : ℕ) (sc : PickScratch) : Type 0 where
    pub place :
        ((sc.best ≡ cpu) × (sc.best_load ≡ own))
        ⊎ ((candidate m p cpu sc.best ≡ true)
            × (sc.best_load ≡ cpu_load_ahead m w sc.best tier)
            × (sc.best_load < own))

  weigh-Best :
      (own other : ℕ) (sc : PickScratch)
      → candidate m p cpu other ≡ true
      → Best own sc
      → Best own (weigh m w p tier cpu start budget other sc).0
  unfolding weigh
  weigh-Best own other sc c b = record { place = ground (arith, b.place) }

  visit-Best :
      (own i : ℕ) (sc : PickScratch)
      → Best own sc
      → Best own (visit m w p tier cpu start budget i sc).0
  unfolding visit
  visit-Best own i sc b =
      let other : ℕ = u32 (start + i) % m.nr_cpu_ids in
      elim (Bool-cases (candidate m p cpu other)) [
        | inl e ↦ rw e (weigh-Best own other sc e b)
        | inr e ↦ rw e b
      ]

  pub scan-Best :
      (own rounds i : ℕ) (sc : PickScratch)
      → Best own sc
      → Best own (scan m w p tier cpu start budget rounds i sc)
  unfolding scan
  scan-Best own zero i sc b = b
  scan-Best own (suc rounds) i sc b =
      let next = visit-Best own i sc b in
      elim (Bool-cases (visit m w p tier cpu start budget i sc).1) [
        | inl e ↦ rw (e, scan) next
        | inr e ↦ rw (e, scan) (scan-Best own rounds (i + 1) _ next)
      ]

-- What the choice may be: the own cpu, the idle cpu that the kernel offers, or a cpu of the same LLC that is
-- online, allowed and less loaded.
abbrev pub Choice : Machine → Task → ℕ → ℕ → World → Picked → Type 0
Choice m p tier cpu w r =
    (r.cpu ≡ cpu)
    ⊎ ((m.idle_for w.trace p.address ≡ pos r.cpu)
        ⊎ ((candidate m p cpu r.cpu ≡ true)
            × (cpu_load_ahead m r.world r.cpu tier < cpu_load_ahead m w cpu tier)))

-- The time of the last migration is set exactly when the task moves.
abbrev pub Stamped : TaskCtx → ℕ → ℕ → Picked → Type 0
Stamped t cpu now r =
    ((r.cpu ≡ cpu) × (r.tctx ≡ t))
    ⊎ ((r.cpu ≢ cpu) × (r.tctx ≡ record t { last_migrated_at = now }))

pub cpu_load_ahead-put_scratch :
    (m : Machine) (w : World) (sc : PickScratch) (cpu tier : ℕ)
    → cpu_load_ahead m (put_scratch sc w) cpu tier ≡ cpu_load_ahead m w cpu tier
unfolding cpu_load_ahead dsq_queued cpu_taken_by_rt
cpu_load_ahead-put_scratch m w sc cpu tier = refl

migrate-Stamped :
    (t : TaskCtx) (cpu target now : ℕ) (w : World)
    → Stamped t cpu now (record { cpu = target; tctx = migrate t cpu target now; world = w })
unfolding migrate
migrate-Stamped t cpu target now w = ground arith

balance_lem :
    (m : Machine) (p : Task) (t : TaskCtx) (tier cpu now own : ℕ) (w : World)
    (o : Option PickScratch)
    → let r = balance m p t tier cpu now own w o in
      ((r.cpu ≡ cpu)
        ⊎ ((candidate m p cpu r.cpu ≡ true) × (cpu_load_ahead m r.world r.cpu tier < own)))
      × Stamped t cpu now r
unfolding balance
balance_lem m p t tier cpu now own w none = (inl refl, inl (refl, refl))
balance_lem m p t tier cpu now own w (some old) =
    let n : ℕ = m.nr_cpu_ids in
    let start : ℕ = m.random w.trace % n in
    let budget : ℕ = if latency_tier tier then n else balance_samples in
    let w' : World = emit (draw_random (m.random w.trace)) w in
    let init : PickScratch = record { best_load = own; best = cpu; sampled = 0 } in
    let sc : PickScratch = scan m w' p tier cpu start budget n 0 init in
    let b : Best m w' p tier cpu start budget own sc =
      scan-Best m w' p tier cpu start budget own n 0 init (record { place = inl (refl, refl) }) in
    (
      elim b.place [
        | inl (e, _) ↦ inl e
        | inr (c, load, less) ↦
            inr (c, rw (cpu_load_ahead-put_scratch m w' sc sc.best tier) (omega arith))
      ],
      migrate-Stamped t cpu sc.best now (put_scratch sc w'),
    )

pick_busy_lem :
    (m : Machine) (p : Task) (t : TaskCtx) (tier cpu now own : ℕ) (w : World) (idle : ℤ)
    → let r = pick_busy m p t tier cpu now own w idle in
      ((r.cpu ≡ cpu)
        ⊎ ((idle ≡ pos r.cpu)
            ⊎ ((candidate m p cpu r.cpu ≡ true) × (cpu_load_ahead m r.world r.cpu tier < own))))
      × Stamped t cpu now r
unfolding pick_busy
pick_busy_lem m p t tier cpu now own w (pos idle) =
    (inr (inl refl), migrate-Stamped t cpu idle now w)
pick_busy_lem m p t tier cpu now own w (negsuc k) =
    ground (arith, balance_lem m p t tier cpu now own w w.scratch)

-- A task is queued on its own cpu, on the idle cpu that the kernel offered, or on a candidate (another
-- cpu of the LLC, online and allowed) whose load, as seen at the end of the scan, is below that of its own
-- cpu, as seen before it. The time of the last migration is set exactly when the cpu is another one.
pub pick_enqueue_cpu-Choice :
    (m : Machine) (p : Task) (t : TaskCtx) (tier cpu now : ℕ) (w : World)
    → let r = pick_enqueue_cpu m p t tier cpu now w in Choice m p tier cpu w r × Stamped t cpu now r
unfolding pick_enqueue_cpu
pick_enqueue_cpu-Choice m p t tier cpu now w =
    let own : ℕ = cpu_load_ahead m w cpu tier in
    let idle : ℤ = m.idle_for w.trace p.address in
    let w1 : World = emit (pick_idle p.address idle) w in
    ground (arith, pick_busy_lem m p t tier cpu now own w1 idle)
