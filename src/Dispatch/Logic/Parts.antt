-- ===== src/Dispatch/Logic/Parts.antt =====
-- The rules for the searches of one tier.
use lunar_sched.Base.{
  ℕ, zero, suc, ◌+◌, ◌%◌, ◌≤◌, ◌<◌, refl, inl, inr, Bool, arith, Bool-cases, if_cases, not, ◌||◌,
  ◌==◌, u32,
}
use lunar_sched.Cpus.{cpu_is_online, get_dispatch_ctx, cpu_llc_id, cpu_taken_by_rt}
use lunar_sched.Dispatch.{
  Test, take_queued, move_then, sweep, search_cpus, steal_from, rescue_from, stamp,
  try_acquire_task_from_other_cpu, try_acquire_from_rt_cpu, take_from_local_tier,
  take_from_other_tier, other_cpu, rt_victim,
}
use lunar_sched.Dispatch.Logic.{IsSource, Searches, Tested, Tests}
use lunar_sched.Dsq.{get_cpu_dsq_from_type, dsq_queued}
use lunar_sched.Kernel.{Machine, World}
use lunar_sched.Tier.Target.{IsTier}

module _ {m : Machine} {cpu : ℕ} {Hit : ℕ → World → World → Type 0} {Miss : World → World → Type 0}
    (rules : Searches m cpu Hit Miss) where
  pub then-Tested :
      (tier : ℕ) (a b : World) (r : Bool × World)
      → Miss a b
      → Tested Hit Miss tier b r
      → Tested Hit Miss tier a r
  then-Tested tier a b r h (inl (e, k)) = inl (e, rules.then_hit tier a b r.1 h k)
  then-Tested tier a b r h (inr (e, k)) = inr (e, rules.then_miss a b r.1 h k)

  move_then-Tests :
      (tier c now : ℕ)
      → IsTier tier
      → IsSource m cpu c
      → Tests Hit Miss tier (move_then m (get_cpu_dsq_from_type tier c) (stamp tier c now))
  unfolding move_then stamp
  move_then-Tests tier c now t src w =
      elim (Bool-cases (m.moves w.trace (get_cpu_dsq_from_type tier c))) [
        | inl e ↦ rw e (inl (refl, rules.taken tier c now w t src))
        | inr e ↦ rw e (inr (refl, rules.refused tier c w t src e))
      ]

  take_queued-Tests :
      (tier c now : ℕ)
      → IsTier tier
      → IsSource m cpu c
      → Tests Hit Miss tier (take_queued m (get_cpu_dsq_from_type tier c) (stamp tier c now))
  unfolding take_queued
  take_queued-Tests tier c now t src w =
      elim (Bool-cases (dsq_queued m w (get_cpu_dsq_from_type tier c) == 0)) [
        | inl e ↦ rw e (inr (refl, rules.still w))
        | inr e ↦ rw e (move_then-Tests tier c now t src w)
      ]

  pub take_from_local_tier-Tests :
      (tier now : ℕ) → IsTier tier → Tests Hit Miss tier (take_from_local_tier m tier cpu now)
  unfolding take_from_local_tier
  take_from_local_tier-Tests tier now t = take_queued-Tests tier cpu now t (inl refl)

  sweep-Tests :
      (tier n start : ℕ) (visit : ℕ → Test)
      → ((c : ℕ) → c < n → Tests Hit Miss tier (visit c))
      → (rounds i : ℕ) → rounds ≤ n
      → Tests Hit Miss tier (sweep n start visit rounds i)
  unfolding sweep
  sweep-Tests tier n start visit h zero i few w = inr (refl, rules.still w)
  sweep-Tests tier n start visit h (suc rounds) i few w =
      elim (h (u32 (start + i) % n) (omega arith) w) [
        | inl (e, k) ↦ rw (e, sweep) (inl (refl, k))
        | inr (e, k) ↦
            rw (e, sweep)
              (then-Tested tier w _ _ k
                (sweep-Tests tier n start visit h rounds (i + 1) (omega arith) _))
      ]

  search_cpus-Tests :
      (tier : ℕ) (visit : ℕ → Test)
      → ((c : ℕ) → c < m.nr_cpu_ids → Tests Hit Miss tier (visit c))
      → Tests Hit Miss tier (search_cpus m visit)
  unfolding search_cpus
  search_cpus-Tests tier visit h w =
      then-Tested tier w _ _ (rules.random _ w)
        (sweep-Tests tier _ _ visit h m.nr_cpu_ids 0 (omega arith) _)

  pub steal_from-Tests :
      (tier : ℕ) (same_llc : Bool) (now c : ℕ)
      → IsTier tier
      → c < m.nr_cpu_ids
      → Tests Hit Miss tier (steal_from m tier cpu same_llc now c)
  unfolding steal_from other_cpu
  steal_from-Tests tier same_llc now c t below w = elim (Bool-cases (other_cpu m cpu same_llc c)) [
    | inl e ↦ rw e (take_queued-Tests tier c now t (inr (below, ground arith)) w)
    | inr e ↦ rw e (inr (refl, rules.still w))
  ]

  rescue_from-Tests :
      (tier now c : ℕ)
      → IsTier tier
      → c < m.nr_cpu_ids
      → Tests Hit Miss tier (rescue_from m tier cpu now c)
  unfolding rescue_from
  rescue_from-Tests tier now c t below w =
      if_cases (Tested Hit Miss tier w)
        (c == cpu || not (cpu_is_online m c) || not (cpu_llc_id m c == cpu_llc_id m cpu)) _ _
        (λ _. inr (refl, rules.still w))
        λ here.
          if_cases (Tested Hit Miss tier w) (not (rt_victim (get_dispatch_ctx w c))) _ _
            (λ _. inr (refl, rules.still w))
            λ _.
              if_cases (Tested Hit Miss tier w)
                (dsq_queued m w (get_cpu_dsq_from_type tier c) == 0 || not (cpu_taken_by_rt m w c))
                _ _ (λ _. inr (refl, rules.still w))
                λ _. move_then-Tests tier c now t (inr (below, ground arith)) w

  pub try_acquire_from_rt_cpu-Tests :
      (tier now : ℕ) → IsTier tier → Tests Hit Miss tier (try_acquire_from_rt_cpu m tier cpu now)
  unfolding try_acquire_from_rt_cpu
  try_acquire_from_rt_cpu-Tests tier now t w = elim (Bool-cases (w.nr_rt_busy == 0)) [
    | inl e ↦ rw e (inr (refl, rules.still w))
    | inr e ↦ rw e (search_cpus-Tests tier _ (λ c. rescue_from-Tests tier now c t) w)
  ]

  pub take_from_other_tier-Tests :
      (tier now : ℕ) (this_llc : Bool)
      → IsTier tier
      → Tests Hit Miss tier (take_from_other_tier m tier cpu now this_llc)
  unfolding take_from_other_tier try_acquire_task_from_other_cpu
  take_from_other_tier-Tests tier now this_llc t w =
      elim (search_cpus-Tests tier (steal_from m tier cpu this_llc now)
        (λ c. steal_from-Tests tier this_llc now c t) w) [
          | inl (e, k) ↦
              rw (e, take_from_other_tier, try_acquire_task_from_other_cpu) (inl (ground arith, k))
          | inr (e, k) ↦
              rw (e, take_from_other_tier, try_acquire_task_from_other_cpu) (inr (refl, k))
        ]
