-- ===== src/Placement/Least.antt =====
-- LC and INTERACTIVE tasks look at all cpus of the LLC: none is missed.
use lunar_sched.Base.{
  ℕ, zero, suc, ◌+◌, ◌-◌, ◌%◌, ◌^◌, ◌≤◌, ◌<◌, ◌≡◌, ◌≢◌, refl, ◌⊎◌, inl, inr, Bool, true, false,
  some, arith, Bool-cases, ltb, ◌==◌, u32, ltb→lt, ltb→ge, ==→eq, subst, sym, le→leb,
}
use lunar_sched.Base.Int.{negsuc}
use lunar_sched.Datatypes.{Task, TaskCtx, PickScratch}
use lunar_sched.Kernel.{Machine, World, emit, draw_random, pick_idle}
use lunar_sched.Placement.Pick.{Best, scan-Best, cpu_load_ahead-put_scratch}
use lunar_sched.Placement.{
  candidate, weigh, visit, scan, cpu_load_ahead, Picked, latency_tier, balance, pick_busy,
  pick_enqueue_cpu,
}

-- The cpus from a start on, wrapping around, are all cpus.
pub round_index :
    (n start other : ℕ)
    → start < n
    → other < n
    → n < 2 ^ 31
    → (j : ℕ) × (j < n) × (u32 (start + j) % n ≡ other)
round_index n start other h k s = elim (Bool-cases (ltb other start)) [
  | inl e ↦ (other + n - start, omega (arith, ltb→lt _ _ e), wrap (ltb→lt _ _ e))
  | inr e ↦ (other - start, omega (arith, ltb→ge _ _ e), straight (ltb→ge _ _ e))
]
  where
    wrap : other < start → u32 (start + (other + n - start)) % n ≡ other
    wrap e =
        let sum : u32 (start + (other + n - start)) ≡ other + n = omega arith in
        rw sum (grind arith)

    straight : start ≤ other → u32 (start + (other - start)) % n ≡ other
    straight e =
        let sum : u32 (start + (other - start)) ≡ other = omega arith in rw sum (grind arith)

module _ (m : Machine) (w : World) (p : Task) (tier cpu start : ℕ) where
  abbrev n : ℕ
  n = m.nr_cpu_ids

  abbrev load_of : ℕ → ℕ
  load_of other = cpu_load_ahead m w other tier

  abbrev nth : ℕ → ℕ
  nth i = u32 (start + i) % n

  -- One round: the best load does not grow, and is at most that of the cpu visited; the round stops the
  -- scan only at a load of 0 or when all cpus are counted.
  record Round (i : ℕ) (sc sc' : PickScratch) (stop : Bool) : Type 0 where
    falls : sc'.best_load ≤ sc.best_load
    seen : candidate m p cpu (nth i) ≡ true → sc'.best_load ≤ load_of (nth i)
    counts : sc'.sampled ≤ suc i
    stops : stop ≡ true → (sc'.best_load ≡ 0) ⊎ (n ≤ suc i)

  visit-Round :
      (i : ℕ) (sc : PickScratch)
      → i < 2 ^ 32
      → sc.sampled ≤ i
      → Round i sc (visit m w p tier cpu start n i sc).0 (visit m w p tier cpu start n i sc).1
  unfolding visit weigh
  visit-Round i sc h k = record {
    falls = ground arith;
    seen = λ c. ground arith;
    counts = ground arith;
    stops = λ s. ground arith;
  }

  -- After `rounds` more rounds from `i` on, no cpu from the `i`-th on is less loaded than the best.
  scan-least :
      (rounds i : ℕ) (sc : PickScratch)
      → i + rounds ≡ n
      → n < 2 ^ 31
      → sc.sampled ≤ i
      → ((scan m w p tier cpu start n rounds i sc).best_load ≤ sc.best_load)
        × ((j : ℕ)
            → i ≤ j
            → j < n
            → candidate m p cpu (nth j) ≡ true
            → (scan m w p tier cpu start n rounds i sc).best_load ≤ load_of (nth j))
  unfolding scan
  scan-least zero i sc e s k = (omega arith, λ j a b c. absurd (omega arith))
  scan-least (suc rounds) i sc e s k =
      let r = visit-Round i sc (omega arith) k in
      let next : PickScratch = (visit m w p tier cpu start n i sc).0 in
      elim (Bool-cases (visit m w p tier cpu start n i sc).1) [
        | inl stop ↦
            rw (stop, scan)
              (
                r.falls,
                λ j a b c. elim (Bool-cases (i == j)) [
                  | inl same ↦
                      subst (λ k'. next.best_load ≤ load_of (nth k')) (==→eq i j same)
                        (r.seen (rw (==→eq i j same) c))
                  | inr later ↦ (elim (r.stops stop) [
                    | inl none_ahead ↦ omega (arith, none_ahead)
                    | inr all_seen ↦ absurd (ground arith)
                  ])
                ],
              )
        | inr go ↦
            let rest = scan-least rounds (i + 1) next (omega arith) s (omega (arith, r.counts)) in
            rw (go, scan)
              (
                omega (arith, rest.0, r.falls),
                λ j a b c. elim (Bool-cases (i == j)) [
                  | inl same ↦
                      subst
                        (λ k'.
                          (scan m w p tier cpu start n rounds (i + 1) next).best_load
                          ≤ load_of (nth k'))
                        (==→eq i j same) (omega (arith, rest.0, r.seen (rw (==→eq i j same) c)))
                  | inr later ↦ rest.1 j (ground arith) b c
                ],
              )
      ]

-- In its tier or a better one, no candidate is less loaded than the cpu chosen; `own` is the load of the
-- task's own cpu before the scan.
abbrev pub NoneLess : Machine → ℕ → ℕ → ℕ → ℕ → Picked → Type 0
NoneLess m tier cpu own other r =
    ((r.cpu ≡ cpu) × (own ≤ cpu_load_ahead m r.world other tier))
    ⊎ (cpu_load_ahead m r.world r.cpu tier ≤ cpu_load_ahead m r.world other tier)

balance_least :
    (m : Machine) (p : Task) (t : TaskCtx) (tier cpu now own other : ℕ) (w : World)
    (old : PickScratch)
    → tier ≤ 2
    → m.nr_cpu_ids < 2 ^ 31
    → other < m.nr_cpu_ids
    → candidate m p cpu other ≡ true
    → NoneLess m tier cpu own other (balance m p t tier cpu now own w (some old))
unfolding balance latency_tier
balance_least m p t tier cpu now own other w old low few h c =
    let n : ℕ = m.nr_cpu_ids in
    let start : ℕ = m.random w.trace % n in
    let w' : World = emit (draw_random (m.random w.trace)) w in
    let init : PickScratch = record { best_load = own; best = cpu; sampled = 0 } in
    let sc : PickScratch = scan m w' p tier cpu start n n 0 init in
    let b : Best m w' p tier cpu start n own sc =
      scan-Best m w' p tier cpu start n own n 0 init (record { place = inl (refl, refl) }) in
    let all = scan-least m w' p tier cpu start n 0 init (omega arith) few (omega arith) in
    let (j, below, at) = round_index n start other (omega arith) h few in
    let least : sc.best_load ≤ cpu_load_ahead m w' other tier =
      subst (λ k. sc.best_load ≤ cpu_load_ahead m w' k tier) at
        (all.1 j (omega arith) below (rw at c)) in
    rw (le→leb tier 2 low) (
      rw
        (
          cpu_load_ahead-put_scratch m w' sc other tier,
          cpu_load_ahead-put_scratch m w' sc sc.best tier,
        )
        (elim b.place [
          | inl (e, load) ↦ inl (e, omega (arith, least, load))
          | inr (k, load, less) ↦ inr (omega (arith, least, load))
        ]))

-- An LC or INTERACTIVE task that may run on several cpus, has some load ahead of it on its own cpu and for
-- which the kernel has no idle cpu is queued where no candidate has a smaller load: all the online and
-- allowed cpus of its LLC are looked at, for machines of fewer than 2^31 cpus and with a scratch area.
pub pick_enqueue_cpu_least :
    (m : Machine) (p : Task) (t : TaskCtx) (tier cpu now other k : ℕ) (w : World)
    (old : PickScratch)
    → tier ≤ 2
    → m.nr_cpu_ids < 2 ^ 31
    → other < m.nr_cpu_ids
    → candidate m p cpu other ≡ true
    → 0 < cpu_load_ahead m w cpu tier
    → p.nr_cpus_allowed ≢ 1
    → m.idle_for w.trace p.address ≡ negsuc k
    → w.scratch ≡ some old
    → NoneLess m tier cpu
        (cpu_load_ahead m w cpu tier)
        other
        (pick_enqueue_cpu m p t tier cpu now w)
unfolding pick_enqueue_cpu pick_busy latency_tier
pick_enqueue_cpu_least m p t tier cpu now other k w old low few h c loaded free none_idle found =
    let own : ℕ = cpu_load_ahead m w cpu tier in
    let busy : (own == 0) ≡ false = ground (arith, loaded) in
    let several : (p.nr_cpus_allowed == 1) ≡ false = ground (arith, free) in
    let w1 : World = emit (pick_idle p.address (negsuc k)) w in
    let least = balance_least m p t tier cpu now own other w1 old low few h c in
    rw (busy, several, none_idle, le→leb tier 2 low)
      (subst (λ o. NoneLess m tier cpu own other (balance m p t tier cpu now own w1 o)) (sym found)
        least)
