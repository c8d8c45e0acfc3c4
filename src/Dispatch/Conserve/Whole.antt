-- ===== src/Dispatch/Conserve/Whole.antt =====
-- The other paragraphs of `dispatch_dsq_per_cpu`, with no previous task, and the whole of it: a task is found.
use lunar_sched.Base.{
  ℕ, ◌≡◌, refl, subst, ◌⊎◌, inl, inr, Bool, false, arith, Bool-cases, Option-cases, ◌==◌,
}
use lunar_sched.Cpus.{get_dispatch_ctx}
use lunar_sched.Datatypes.{DispatchCtx}
use lunar_sched.Defines.{dsq_type_empty}
use lunar_sched.Dispatch.Conserve.{
  Quiet, here, read, Finds, Hits, Gives, Reaches, quiet, return_if-Finds, which_tier,
  take_from_local_tier-Hits,
}
use lunar_sched.Dispatch.Conserve.Tiers.{serve_tier-Finds, serve_own-Finds, steal-Finds}
use lunar_sched.Dispatch.Logic.Parts.{try_acquire_from_rt_cpu-Tests, take_from_local_tier-Tests}
use lunar_sched.Dispatch.Logic.Whole.{
  better_tier-Tests, starved-IsTier, override_step-Tests, end_override-IsLabel,
}
use lunar_sched.Dispatch.Order.{
  steal, serve_tier, serve_own, local_best, better_tier, serve_better, serve_starved, end_override,
  override_step, continue_override, serve_overrides, dispatch_dsq_per_cpu,
}
use lunar_sched.Dispatch.{
  Action, return_if, try_acquire_from_rt_cpu, take_from_local_tier, most_starved_tier,
}
use lunar_sched.Dsq.{get_cpu_dsq_from_type}
use lunar_sched.Kernel.{Machine, World, Trace, read_clock, emit}
use lunar_sched.Tier.Target.{IsTier}

module _ (t : Trace) (m : Machine) (cpu now : ℕ) where
  better_step :
      (best tier : ℕ) (rest : Action)
      → IsTier tier
      → Finds t rest
      → Finds t (return_if (better_tier m cpu now best tier) tier rest)
  better_step best tier rest h k =
      return_if-Finds t _ tier rest h (better_tier-Tests (quiet t m cpu) now best tier h) (inr k)

  serve_better-Finds :
      Finds t (serve_own m cpu now dsq_type_empty) → Finds t (serve_better m cpu now dsq_type_empty)
  unfolding serve_better
  serve_better-Finds h = record {
    found = λ w q.
        let best : ℕ = local_best m cpu now w dsq_type_empty in
        let all =
          better_step best 1 _ (omega arith)
            (better_step best 2 _ (omega arith) (better_step best 3 _ (omega arith) h)) in
        elim (Bool-cases (best == dsq_type_empty)) [
          | inl e ↦ rw e (h.found w q)
          | inr e ↦ rw e (all.found w q)
        ];
  }

  serve_starved-Finds :
      (d : DispatchCtx)
      → Finds t (serve_own m cpu now dsq_type_empty)
      → Finds t (serve_starved m cpu now dsq_type_empty d)
  unfolding serve_starved
  serve_starved-Finds d h = record {
    found = λ w q.
        let starved : ℕ = most_starved_tier m w d cpu now in
        let better = serve_better-Finds h in
        elim (Bool-cases (starved == dsq_type_empty)) [
          | inl e ↦ rw e (better.found w q)
          | inr some_tier ↦
              let tier : IsTier starved = starved-IsTier (quiet t m cpu) now w d some_tier in
              elim (take_from_local_tier-Tests (quiet t m cpu).searches starved now tier w) [
                | inl (e, _) ↦ rw (some_tier, e) tier
                | inr (e, stays) ↦ rw (some_tier, e) (better.found _ (stays q))
              ]
        ];
  }

  -- After an override that has nothing more to take.
  override_ended-Finds :
      (d : DispatchCtx) (w : World)
      → Finds t (serve_own m cpu now dsq_type_empty)
      → Quiet t w.trace
      → (override_step m cpu now d w).0 ≡ false
      → (Quiet t w.trace → Quiet t (override_step m cpu now d w).1.trace)
      → (d.override_left == 0) ≡ false
      → IsTier (continue_override m cpu now dsq_type_empty d w).0
  unfolding continue_override
  override_ended-Finds d w h q e stays left =
      let rules = quiet t m cpu in
      let w' : World = (override_step m cpu now d w).1 in
      rw (left, e)
        ((serve_starved-Finds (end_override m cpu now d) h).found _
          (rules.label_miss (end_override m cpu now) w' (end_override-IsLabel rules now) (stays q)))

  continue_override-Finds :
      (d : DispatchCtx)
      → Finds t (serve_own m cpu now dsq_type_empty)
      → Finds t (continue_override m cpu now dsq_type_empty d)
  unfolding continue_override
  continue_override-Finds d h = record {
    found = λ w q. elim (Bool-cases (d.override_left == 0)) [
      | inl e ↦ rw e ((serve_starved-Finds d h).found w q)
      | inr left ↦ (elim (override_step-Tests (quiet t m cpu) now d w) [
        | inl (tier, inl (e, _)) ↦ rw (left, e) tier
        | inl (tier, inr (e, stays)) ↦ override_ended-Finds d w h q e stays left
        | inr (e, stays) ↦ override_ended-Finds d w h q e stays left
      ])
    ];
  }

  serve_overrides-Finds :
      Finds t (serve_own m cpu now dsq_type_empty)
      → Finds t (serve_overrides m cpu now dsq_type_empty)
  unfolding serve_overrides
  serve_overrides-Finds h = record {
    found = λ w q. elim (Option-cases (get_dispatch_ctx w cpu)) [
      | inl e ↦ rw (e, serve_overrides) ((serve_better-Finds h).found w q)
      | inr (d, e) ↦ rw (e, serve_overrides) ((continue_override-Finds d h).found w q)
    ];
  }

  own-Finds :
      (tier : ℕ)
      → IsTier tier
      → Gives m (get_cpu_dsq_from_type tier cpu) t
      → Hits t (take_from_local_tier m 1 cpu now)
        ⊎ Finds t (serve_overrides m cpu now dsq_type_empty)
  own-Finds tier h g =
      elim (which_tier (λ a. Hits t (take_from_local_tier m a cpu now)) (Finds t (steal m cpu now))
        tier h (take_from_local_tier-Hits t m cpu now tier g)) [
          | inl first ↦ inl first
          | inr rest ↦ inr (serve_overrides-Finds (serve_own-Finds t m cpu now rest))
        ]

-- A cpu that has no previous task to run takes a task whenever a queue of a tier, its own or that of another
-- cpu that its search reaches (online, and of the same LLC or with more LLCs than one), gives a task for as long
-- as the dispatch has taken none, for fewer than 2^31 cpus.
pub dispatch_dsq_per_cpu-IsTier :
    (m : Machine) (cpu tier c : ℕ) (w : World)
    → IsTier tier
    → Gives m (get_cpu_dsq_from_type tier c) w.trace
    → (c ≡ cpu) ⊎ Reaches m cpu c
    → IsTier (dispatch_dsq_per_cpu m cpu dsq_type_empty w).0
unfolding dispatch_dsq_per_cpu
dispatch_dsq_per_cpu-IsTier m cpu tier c w h g r =
    (serve_tier-Finds t m cpu now 1 _ (omega arith) (by_source r)).found _ (read now here)
  where
    now : ℕ
    now = m.clock w.trace

    t : Trace
    t = w.trace

    by_source :
        (c ≡ cpu) ⊎ Reaches m cpu c
        → Hits t (take_from_local_tier m 1 cpu now)
          ⊎ Finds t (serve_overrides m cpu now dsq_type_empty)
    by_source (inl own) =
        own-Finds t m cpu now tier h (subst (λ a. Gives m (get_cpu_dsq_from_type tier a) t) own g)
    by_source (inr k) = inr (
        serve_overrides-Finds t m cpu now
          (serve_own-Finds t m cpu now (inr (inr (inr (steal-Finds t m cpu now tier c h k g))))))

-- Whatever runs and whatever is starved, a cpu whose own LC queue gives a task for as long as the dispatch
-- has taken none takes an LC task.
pub dispatch_dsq_per_cpu_lc :
    (m : Machine) (cpu prev_tier : ℕ) (w : World)
    → Gives m (get_cpu_dsq_from_type 1 cpu) w.trace
    → (dispatch_dsq_per_cpu m cpu prev_tier w).0 ≡ 1
unfolding dispatch_dsq_per_cpu serve_tier return_if
dispatch_dsq_per_cpu_lc m cpu prev_tier w g =
    let now : ℕ = m.clock w.trace in
    let begun : World = emit (read_clock now) w in
    let r : Bool × World = try_acquire_from_rt_cpu m 1 cpu now begun in
    let own = take_from_local_tier-Hits w.trace m cpu now 1 g in
    elim (try_acquire_from_rt_cpu-Tests (quiet w.trace m cpu).searches 1 now (omega arith) begun) [
      | inl (e, _) ↦ rw e refl
      | inr (e, stays) ↦ rw (e, own.hit r.1 (stays (read now here))) refl
    ]
