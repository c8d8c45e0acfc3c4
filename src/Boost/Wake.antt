-- ===== src/Boost/Wake.antt =====
-- What a boost is worth, and how long its budgets last.
use lunar_sched.Base.{
  ℕ, ◌+◌, ◌-◌, ◌<◌, ◌≡◌, refl, sym, subst, ◌⊎◌, inl, inr, true, false, some, List, [], ◌∷◌, arith,
  Bool-cases, Option-cases, ◌==◌, ==-self, ltb, ◌&&◌, ◌||◌,
}
use lunar_sched.Boost.{Context, boost_from, boost_by, apply_wake_boost, charge_override}
use lunar_sched.Cpus.{get_task_ctx}
use lunar_sched.Defines.{wake_boost_from_kthreads}
use lunar_sched.Datatypes.{Task, TaskCtx, DispatchCtx}
use lunar_sched.Kernel.{World}
use lunar_sched.Tier.{effective_tier, sanitize_tier}

-- A raise to the tier of another context, with nothing charged to it yet.
pub record Raised (u t t' : TaskCtx) : Type 0 where
  pub better : effective_tier (some t') < effective_tier (some t)
  pub lent : effective_tier (some t') ≡ effective_tier (some u)
  pub fresh : t'.boost_used ≡ 0
  pub only : t' ≡ record t { boost_dsq_type = effective_tier (some u); boost_used = 0 }

raise_lem :
    (b : ℕ) (t : TaskCtx)
    → (ltb b (sanitize_tier t.current_dsq_type) && ltb b t.boost_dsq_type) ≡ true
    → (effective_tier (some (record t { boost_dsq_type = b; boost_used = 0 }))
        < effective_tier (some t))
      × (effective_tier (some (record t { boost_dsq_type = b; boost_used = 0 })) ≡ b)
unfolding effective_tier
raise_lem b t e = ground arith

boost_from_lem : (u t : TaskCtx) → (boost_from u t ≡ t) ⊎ Raised u t (boost_from u t)
unfolding boost_from
boost_from_lem u t =
    let waker_tier : ℕ = effective_tier (some u) in
    elim (Bool-cases
      (ltb waker_tier (sanitize_tier t.current_dsq_type) && ltb waker_tier t.boost_dsq_type)) [
        | inl e ↦
            rw (e, boost_from)
              (inr (record {
                better = (raise_lem waker_tier t e).0;
                lent = (raise_lem waker_tier t e).1;
                fresh = refl;
                only = refl;
              }))
        | inr e ↦ rw (e, boost_from) (inl refl)
      ]

-- Who lends a boost: the current task, in task context; another task than the one woken, and not idle.
pub record Lent (c : Context) (w : World) (p : Task) (t t' : TaskCtx) : Type 0 where
  pub waker : Task
  pub lender : TaskCtx
  pub in_task : c.in_task ≡ true
  pub current : c.current ≡ some waker
  pub known : get_task_ctx w waker ≡ some lender
  pub awake : waker.pf_idle ≡ false
  pub other : (waker.address == p.address) ≡ false
  pub raised : Raised lender t t'

boost_by_lem :
    (c : Context) (w : World) (waker p : Task) (t : TaskCtx)
    → c.in_task ≡ true
    → c.current ≡ some waker
    → (boost_by w waker p t ≡ t) ⊎ Lent c w p t (boost_by w waker p t)
unfolding boost_by
boost_by_lem c w waker p t h k = elim (Bool-cases (waker.address == p.address || waker.pf_idle)) [
  | inl e ↦ rw (e, boost_by) (inl refl)
  | inr e ↦
      rw (e, boost_by)
        (elim (Bool-cases ((wake_boost_from_kthreads == 0) && waker.pf_kthread)) [
          | inl barred ↦ rw barred (inl refl)
          | inr may ↦ rw may (elim (Option-cases (get_task_ctx w waker)) [
            | inl none_known ↦ rw none_known (inl refl)
            | inr (u, known) ↦ rw known (elim (boost_from_lem u t) [
              | inl same ↦ inl same
              | inr up ↦ inr (record {
                waker = waker;
                lender = u;
                in_task = h;
                current = k;
                known = known;
                awake = ground arith;
                other = ground arith;
                raised = up;
              })
            ])
          ])
        ])
]

apply_wake_boost-boost_by :
    (c : Context) (w : World) (waker p : Task) (t : TaskCtx)
    → c.in_task ≡ true
    → c.current ≡ some waker
    → apply_wake_boost c w p t ≡ boost_by w waker p t
unfolding apply_wake_boost
apply_wake_boost-boost_by c w waker p t h k = rw (h, k) refl

-- A wakeup leaves the context of the woken task as it is, or lends it the effective tier of the current
-- task, which then is strictly better than the one it had, with no boost time used. It is lent only in task
-- context, by another task that is not idle and has a context.
pub apply_wake_boost_lem :
    (c : Context) (w : World) (p : Task) (t : TaskCtx)
    → (apply_wake_boost c w p t ≡ t) ⊎ Lent c w p t (apply_wake_boost c w p t)
unfolding apply_wake_boost
apply_wake_boost_lem c w p t = elim (Bool-cases c.in_task) [
  | inr e ↦ inl (rw e refl)
  | inl e ↦ (elim (Option-cases c.current) [
    | inl idle ↦ inl (rw (e, idle) refl)
    | inr (waker, k) ↦
        subst (λ t'. (t' ≡ t) ⊎ Lent c w p t t') (sym (apply_wake_boost-boost_by c w waker p t e k))
          (boost_by_lem c w waker p t e k)
  ])
]

-- The charges of several runs of one tier.
abbrev pub charges : ℕ → List ℕ → DispatchCtx → DispatchCtx
charges tier [] d = d
charges tier (used ∷ more) d = charges tier more (charge_override d tier used)

abbrev pub total : List ℕ → ℕ
total [] = 0
total (used ∷ more) = used + total more

-- One charge.
charge_override_one :
    (d : DispatchCtx) (used : ℕ)
    → (charge_override d d.override_tier used) ≡ record d { override_left = d.override_left - used }
unfolding charge_override
charge_override_one d used = ground (arith, ==-self d.override_tier)

-- Runs of the boosted tier use up the budget of an override by the time they take, in however many pieces;
-- nothing else of the cpu's context changes.
pub charge_override_total :
    (d : DispatchCtx) (runs : List ℕ)
    → charges d.override_tier runs d ≡ record d { override_left = d.override_left - total runs }
charge_override_total d [] = ground arith
charge_override_total d (used ∷ more) =
    let spent : DispatchCtx = record d { override_left = d.override_left - used } in
    rw (charge_override_one d used, charge_override_total spent more) (ground arith)
