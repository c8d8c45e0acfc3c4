-- ===== src/Invariant/Calls/Init.antt =====
-- The calls of `lunar_init`.
use lunar_sched.Base.{
  ℕ, zero, suc, ◌+◌, ◌≤◌, ◌<◌, refl, inl, inr, List, [], ◌∷◌, arith, Bool-cases, Option-cases,
}
use lunar_sched.Base.Int.{is_zero}
use lunar_sched.Callbacks.Init.{create_queues, queues_of, init_queues, init_cpus, lunar_init}
use lunar_sched.Cpus.{get_dispatch_ctx}
use lunar_sched.Dsq.{get_cpu_dsq_from_type}
use lunar_sched.Invariant.Calls.{IsQueue, Ordered, emit-Ordered, same_trace}
use lunar_sched.Kernel.{Machine, World, create_dsq, read_clock}

abbrev AllQueues : Machine → List ℕ → Type 0
AllQueues m [] = Unit {0}
AllQueues m (dsq ∷ dsqs) = IsQueue m dsq × AllQueues m dsqs

module _ (m : Machine) where
  create_queues-Ordered :
      (dsqs : List ℕ) (w : World)
      → AllQueues m dsqs
      → Ordered m w
      → Ordered m (create_queues m dsqs w).1
  unfolding create_queues
  create_queues-Ordered [] w queues h = h
  create_queues-Ordered (dsq ∷ dsqs) w queues h =
      let made = emit-Ordered m (create_dsq dsq (m.creates w.trace dsq)) w queues.0 h in
      elim (Bool-cases (is_zero (m.creates w.trace dsq))) [
        | inl e ↦ rw (e, create_queues) (create_queues-Ordered dsqs _ queues.1 made)
        | inr e ↦ rw (e, create_queues) made
      ]

  queues_of-AllQueues : (cpu : ℕ) → cpu < m.nr_cpu_ids → AllQueues m (queues_of cpu)
  unfolding get_cpu_dsq_from_type
  queues_of-AllQueues cpu below = (
    (1, cpu, omega arith, below, refl),
    (
      (3, cpu, omega arith, below, refl),
      ((2, cpu, omega arith, below, refl), ((4, cpu, omega arith, below, refl), tt)),
    ),
  )

  init_queues-Ordered :
      (rounds cpu : ℕ) (w : World)
      → cpu + rounds ≤ m.nr_cpu_ids
      → Ordered m w
      → Ordered m (init_queues m rounds cpu w).1
  unfolding init_queues
  init_queues-Ordered zero cpu w within h = h
  init_queues-Ordered (suc rounds) cpu w within h =
      let made =
        create_queues-Ordered (queues_of cpu) w (queues_of-AllQueues cpu (omega arith)) h in
      elim (Bool-cases (is_zero (create_queues m (queues_of cpu) w).0)) [
        | inl e ↦ rw (e, init_queues) (init_queues-Ordered rounds (cpu + 1) _ (omega arith) made)
        | inr e ↦ rw (e, init_queues) made
      ]

  init_cpus-Ordered :
      (rounds cpu : ℕ) (w : World) → Ordered m w → Ordered m (init_cpus m rounds cpu w).1
  unfolding init_cpus
  init_cpus-Ordered zero cpu w h = h
  init_cpus-Ordered (suc rounds) cpu w h = elim (Option-cases (get_dispatch_ctx w cpu)) [
    | inl e ↦ rw (e, init_cpus) h
    | inr (d, e) ↦
        let read = emit-Ordered m (read_clock (m.clock w.trace)) w tt h in
        rw (e, init_cpus) (init_cpus-Ordered rounds (cpu + 1) _ (same_trace m _ _ refl read))
  ]

  pub lunar_init-Ordered : (w : World) → Ordered m w → Ordered m (lunar_init m w).1
  unfolding lunar_init
  lunar_init-Ordered w h =
      let queues = init_queues-Ordered m.nr_cpu_ids 0 w (omega arith) h in
      elim (Bool-cases (is_zero (init_queues m m.nr_cpu_ids 0 w).0)) [
        | inl e ↦ rw (e, lunar_init) (init_cpus-Ordered m.nr_cpu_ids 0 _ queues)
        | inr e ↦ rw (e, lunar_init) queues
      ]
