-- ===== src/Tier.antt =====
-- source/lunar.bpf.c: the tier of a task from its crit score and its duty. 1 is LC, 4 is GREEDY.
pub mod Target
pub mod Update
use lunar_sched.Base.{
  ℕ, Bool, true, false, Option, none, some, ◌&&◌, ◌||◌, ltb, leb, ◌==◌, if◌then◌else◌,
}
use lunar_sched.Base.Int.{ℤ, pos, ◌+ℤ◌, ◌-ℤ◌, leb_ℤ, ltb_ℤ}
use lunar_sched.Crit.{calc_crit}
use lunar_sched.Datatypes.{TaskCtx}
use lunar_sched.Defines.{
  crit_edge_lc, crit_edge_interactive, crit_edge_normal, dsq_type_lc, dsq_type_interactive,
  dsq_type_normal, dsq_type_greedy, duty_cap_lc, duty_cap_interactive, duty_cap_normal, duty_hyst,
  duty_samples_needed,
}

pub tier_from_crit : ℤ → ℕ
tier_from_crit crit =
    if leb_ℤ (pos crit_edge_lc) crit
    then dsq_type_lc
    else if leb_ℤ (pos crit_edge_interactive) crit
    then dsq_type_interactive
    else if leb_ℤ (pos crit_edge_normal) crit
    then dsq_type_normal
    else dsq_type_greedy

pub tier_cap_from_duty : ℤ → ℕ
tier_cap_from_duty duty =
    if ltb_ℤ duty (pos duty_cap_lc)
    then dsq_type_lc
    else if ltb_ℤ duty (pos duty_cap_interactive)
    then dsq_type_interactive
    else if ltb_ℤ duty (pos duty_cap_normal)
    then dsq_type_normal
    else dsq_type_greedy

pub target_tier : ℤ → ℤ → ℕ
unfolding tier_from_crit tier_cap_from_duty
target_tier crit duty =
    let wanted : ℕ = tier_from_crit crit in
    let allowed : ℕ = tier_cap_from_duty duty in if ltb allowed wanted then wanted else allowed

unfoldable pub sanitize_tier : ℕ → ℕ
sanitize_tier tier =
    if ltb tier dsq_type_lc || ltb dsq_type_greedy tier then dsq_type_greedy else tier

-- The tier by the samples, with the hysteresis on the duty.
settle_tier : TaskCtx → TaskCtx
settle_tier t =
    if ltb t.duty_samples duty_samples_needed
    then record t { current_dsq_type = dsq_type_greedy }
    else (let pessimistic : ℕ = target_tier (pos t.crit) (t.duty +ℤ pos duty_hyst) in
        let optimistic : ℕ = target_tier (pos t.crit) (t.duty -ℤ pos duty_hyst) in
        if ltb pessimistic t.current_dsq_type
        then record t { current_dsq_type = pessimistic }
        else if ltb t.current_dsq_type optimistic
        then record t { current_dsq_type = optimistic }
        else t)

-- `kthread` is the test of the task's flags.
pub update_task_dsq_type : Bool → TaskCtx → ℕ → TaskCtx
unfolding settle_tier
update_task_dsq_type kthread t now =
    let scored : TaskCtx = record t { crit = calc_crit t now } in
    let settled : TaskCtx = settle_tier scored in
    if kthread
      && ltb_ℤ settled.duty (pos duty_cap_interactive)
      && ltb dsq_type_interactive settled.current_dsq_type
    then record settled { current_dsq_type = dsq_type_interactive }
    else settled

-- A task with no context counts as GREEDY.
unfoldable pub effective_tier : Option TaskCtx → ℕ
unfolding sanitize_tier
effective_tier none = dsq_type_greedy
effective_tier (some t) =
    let tier : ℕ = sanitize_tier t.current_dsq_type in
    if ltb t.boost_dsq_type tier then t.boost_dsq_type else tier
