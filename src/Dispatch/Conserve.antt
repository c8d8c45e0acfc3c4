-- ===== src/Dispatch/Conserve.antt =====
-- A cpu with nothing to run finds a task whenever a queue that it may serve gives one.
pub mod Tiers
pub mod Whole
use lunar_sched.Base.{
  ℕ, zero, suc, ◌+◌, ◌%◌, ◌^◌, ◌≤◌, ◌<◌, ◌≡◌, ◌≢◌, refl, subst, sym, ◌⊎◌, inl, inr, Bool, true,
  false, ◌∷◌, arith, Bool-cases, ◌==◌, ==→eq, u32,
}
use lunar_sched.Cpus.{cpu_is_online, cpu_llc_id}
use lunar_sched.Dispatch.Accounting.{modify_cpu-trace}
use lunar_sched.Dispatch.Logic.Parts.{steal_from-Tests}
use lunar_sched.Dispatch.Logic.{Rules, Tests}
use lunar_sched.Dispatch.{
  Test, Action, return_if, return_when, take_queued, move_then, sweep, search_cpus, steal_from,
  other_cpu, try_acquire_task_from_other_cpu, take_from_local_tier, take_from_other_tier, stamp,
}
use lunar_sched.Dsq.{get_cpu_dsq_from_type, dsq_queued}
use lunar_sched.Kernel.{Machine, World, Trace, draw_random, read_clock, move_to_local}
use lunar_sched.Placement.Least.{round_index}
use lunar_sched.Tier.Target.{IsTier}

-- The calls of a dispatch that has found nothing yet, since `t`: it reads the clock, draws numbers, and is
-- refused tasks.
pub data Quiet (t : Trace) : Trace → Type 0 where
  here : Quiet t t
  read : {u : Trace} → (now : ℕ) → Quiet t u → Quiet t (read_clock now ∷ u)
  drew : {u : Trace} → (n : ℕ) → Quiet t u → Quiet t (draw_random n ∷ u)
  missed : {u : Trace} → (dsq : ℕ) → Quiet t u → Quiet t (move_to_local dsq false ∷ u)

-- A queue gives a task to a dispatch that has found nothing since `t`.
pub record Gives (m : Machine) (dsq : ℕ) (t : Trace) : Type 0 where
  pub waits : (w : World) → Quiet t w.trace → (dsq_queued m w dsq == 0) ≡ false
  pub moves : (w : World) → Quiet t w.trace → m.moves w.trace dsq ≡ true

module _ (t : Trace) where
  -- A part of the dispatch that returns a tier, and a test that takes a task.
  pub record Finds (a : Action) : Type 0 where
    pub found : (w : World) → Quiet t w.trace → IsTier (a w).0

  pub record Hits (f : Test) : Type 0 where
    pub hit : (w : World) → Quiet t w.trace → (f w).0 ≡ true

  abbrev pub Took : ℕ → World → World → Type 0
  Took tier w w' = Unit {0}

  abbrev pub Stays : World → World → Type 0
  Stays w w' = Quiet t w.trace → Quiet t w'.trace

  -- A test that takes no task stays quiet.
  abbrev pub Looks : ℕ → Test → Type 0
  Looks tier f = Tests Took Stays tier f

  pub quiet : (m : Machine) (cpu : ℕ) → Rules m cpu Took Stays
  quiet m cpu = record {
    searches = record {
      still = λ w q. q;
      then_miss = λ a b c h k q. k (h q);
      then_hit = λ tier a b c h k. tt;
      clock = λ now w q. read now q;
      random = λ n w q. drew n q;
      refused = λ tier c w h src e q. missed (get_cpu_dsq_from_type tier c) q;
      taken = λ tier c now w h src. tt;
    };
    label_miss = λ f w k q. rw (modify_cpu-trace cpu f w) q;
    label_hit = λ tier f a b k h. tt;
  }

  pub return_if-Finds :
      (f : Test) (tier : ℕ) (rest : Action)
      → IsTier tier
      → Looks tier f
      → Hits f ⊎ Finds rest
      → Finds (return_if f tier rest)
  unfolding return_if
  return_if-Finds f tier rest h looks (inl k) = record { found = λ w q. rw (k.hit w q) h }
  return_if-Finds f tier rest h looks (inr k) = record {
    found = λ w q. elim (looks w) [
      | inl (e, _) ↦ rw e h
      | inr (e, stays) ↦ rw e (k.found (f w).1 (stays q))
    ];
  }

  pub return_when-Finds :
      (b : Bool) (tier : ℕ) (rest : Action)
      → b ≡ false
      → Finds rest
      → Finds (return_when b tier rest)
  unfolding return_when
  return_when-Finds b tier rest h k = record { found = λ w q. rw h (k.found w q) }

-- One of the four tiers, for a chain of tests.
pub which_tier :
    (H : ℕ → Type 0) (X : Type 0) (tier : ℕ)
    → IsTier tier
    → H tier
    → H 1 ⊎ (H 2 ⊎ (H 3 ⊎ (H 4 ⊎ X)))
which_tier H X tier h k = elim cases [
  | inl e ↦ inl (subst H e k)
  | inr (inl e) ↦ inr (inl (subst H e k))
  | inr (inr (inl e)) ↦ inr (inr (inl (subst H e k)))
  | inr (inr (inr e)) ↦ inr (inr (inr (inl (subst H e k))))
]
  where
    cases : (tier ≡ 1) ⊎ ((tier ≡ 2) ⊎ ((tier ≡ 3) ⊎ (tier ≡ 4)))
    cases = ground arith

module _ (t : Trace) where
  take_queued-Hits :
      (m : Machine) (dsq : ℕ) (after : World → World)
      → Gives m dsq t
      → Hits t (take_queued m dsq after)
  unfolding take_queued move_then
  take_queued-Hits m dsq after g = record { hit = λ w q. rw (g.waits w q, g.moves w q) refl }

  -- The visits before the one that takes a task take one as well, or stay quiet.
  sweep-Hits :
      (n start tier : ℕ) (visit : ℕ → Test) (rounds i j : ℕ) (w : World)
      → ((c : ℕ) → c < n → Looks t tier (visit c))
      → rounds ≤ n
      → i ≤ j
      → j < i + rounds
      → Hits t (visit (u32 (start + j) % n))
      → Quiet t w.trace
      → (sweep n start visit rounds i w).0 ≡ true
  unfolding sweep
  sweep-Hits n start tier visit zero i j w looks few low high k q = absurd (omega arith)
  sweep-Hits n start tier visit (suc rounds) i j w looks few low high k q =
      elim (looks (u32 (start + i) % n) (omega arith) w) [
        | inl (e, _) ↦ rw (e, sweep) refl
        | inr (e, stays) ↦ elim (Bool-cases (i == j)) [
          | inl same ↦ absurd (
              ground (
                arith,
                e,
                subst (λ a. (visit (u32 (start + a) % n) w).0 ≡ true) (sym (==→eq i j same))
                    (k.hit w q),
              ))
          | inr other ↦
              rw (e, sweep)
                (sweep-Hits n start tier visit rounds (i + 1) j _ looks (omega arith) (ground arith)
                  (omega arith) k (stays q))
        ]
      ]

  module _ (m : Machine) (cpu now : ℕ) where
    pub take_from_local_tier-Hits :
        (tier : ℕ)
        → Gives m (get_cpu_dsq_from_type tier cpu) t
        → Hits t (take_from_local_tier m tier cpu now)
    unfolding take_from_local_tier
    take_from_local_tier-Hits tier g = take_queued-Hits m _ _ g

    steal_from-Hits :
        (tier c : ℕ) (same_llc : Bool)
        → other_cpu m cpu same_llc c ≡ true
        → Gives m (get_cpu_dsq_from_type tier c) t
        → Hits t (steal_from m tier cpu same_llc now c)
    unfolding steal_from
    steal_from-Hits tier c same_llc e g = record {
      hit = λ w q. rw e ((take_queued-Hits m _ (stamp tier c now) g).hit w q);
    }

    search_cpus-Hits :
        (tier : ℕ) (visit : ℕ → Test) (c : ℕ)
        → ((c : ℕ) → c < m.nr_cpu_ids → Looks t tier (visit c))
        → c < m.nr_cpu_ids
        → m.nr_cpu_ids < 2 ^ 31
        → Hits t (visit c)
        → Hits t (search_cpus m visit)
    unfolding search_cpus
    search_cpus-Hits tier visit c looks below few k = record {
      hit = λ w q.
          let n : ℕ = m.nr_cpu_ids in
          let start : ℕ = m.random w.trace % n in
          let (j, within, at) = round_index n start c (omega arith) below few in
          sweep-Hits n start tier visit n 0 j _ looks (omega arith) (omega arith) (omega arith)
            (subst (λ a. Hits t (visit a)) (sym at) k) (drew (m.random w.trace) q);
    }

    pub take_from_other_tier-Hits :
        (tier c : ℕ) (same_llc : Bool)
        → IsTier tier
        → c < m.nr_cpu_ids
        → m.nr_cpu_ids < 2 ^ 31
        → other_cpu m cpu same_llc c ≡ true
        → Gives m (get_cpu_dsq_from_type tier c) t
        → Hits t (take_from_other_tier m tier cpu now same_llc)
    unfolding take_from_other_tier try_acquire_task_from_other_cpu
    take_from_other_tier-Hits tier c same_llc h below few e g = record {
      hit = λ w q.
          let found =
            search_cpus-Hits tier (steal_from m tier cpu same_llc now) c
              (λ a inside. steal_from-Tests (quiet t m cpu).searches tier same_llc now a h inside)
              below few (steal_from-Hits tier c same_llc e g) in
          rw (found.hit w q) (ground arith);
    }

-- Whether the search of a cpu looks at the queues of another one.
module _ (m : Machine) (cpu : ℕ) where
  pub record Reaches (c : ℕ) : Type 0 where
    pub below : c < m.nr_cpu_ids
    pub few : m.nr_cpu_ids < 2 ^ 31
    pub other : c ≢ cpu
    pub online : cpu_is_online m c ≡ true
    pub llc : (cpu_llc_id m c ≡ cpu_llc_id m cpu) ⊎ (1 < m.nr_llcs)
