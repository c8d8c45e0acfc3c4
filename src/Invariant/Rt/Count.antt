-- ===== src/Invariant/Rt/Count.antt =====
-- `nr_rt_busy` is the number of cpus whose realtime flag is set.
use lunar_sched.Base.{
  ℕ, zero, suc, ◌+◌, ◌^◌, ◌≤◌, ◌<◌, ◌≡◌, refl, ◌∙◌, sym, ap, inl, inr, Bool, false, Option, some,
  arith, Bool-cases, Option-cases, if_cases, ◌==◌, ==→eq, ==-self, if◌then◌else◌, update,
}
use lunar_sched.Callbacks.Switch.{note_switch, leave_cpu, lunar_sched_switch}
use lunar_sched.Cpus.{get_dispatch_ctx, is_rt_task}
use lunar_sched.Datatypes.{Task, DispatchCtx}
use lunar_sched.Dispatch.Kick.{kick_found, kick_for, kick_tiers, kick_idle_for_waiting}
use lunar_sched.Invariant.Rt.{SameRt, SameRt-refl, busy}
use lunar_sched.Kernel.{Machine, World, reenqueue_local, emit}

-- Of the first `n` cpus, how many have the flag.
abbrev pub busy_count : ℕ → (ℕ → Option DispatchCtx) → ℕ
busy_count zero cpus = 0
busy_count (suc n) cpus = busy_count n cpus + (if busy (cpus n) then 1 else 0)

pub busy_count-le : (n : ℕ) (cpus : ℕ → Option DispatchCtx) → busy_count n cpus ≤ n
busy_count-le zero cpus = omega arith
busy_count-le (suc n) cpus = ground (arith, busy_count-le n cpus)

pub busy_count-none :
    (n : ℕ) (cpus : ℕ → Option DispatchCtx)
    → ((c : ℕ) → busy (cpus c) ≡ false)
    → busy_count n cpus ≡ 0
busy_count-none zero cpus h = refl
busy_count-none (suc n) cpus h = ground (arith, h n, busy_count-none n cpus h)

busy_count-same :
    (n : ℕ) (cpus cpus' : ℕ → Option DispatchCtx)
    → ((c : ℕ) → busy (cpus' c) ≡ busy (cpus c))
    → busy_count n cpus' ≡ busy_count n cpus
busy_count-same zero cpus cpus' h = refl
busy_count-same (suc n) cpus cpus' h = ground (arith, h n, busy_count-same n cpus cpus' h)

busy_count-above :
    (n cpu : ℕ) (cpus : ℕ → Option DispatchCtx) (d : DispatchCtx)
    → n ≤ cpu
    → busy_count n (update cpus cpu (some d)) ≡ busy_count n cpus
busy_count-above zero cpu cpus d h = refl
busy_count-above (suc n) cpu cpus d h = ground (arith, busy_count-above n cpu cpus d)

abbrev flag : Bool → ℕ
flag b = if b then 1 else 0

busy_count-update :
    (n cpu : ℕ) (cpus : ℕ → Option DispatchCtx) (d : DispatchCtx)
    → cpu < n
    → busy_count n (update cpus cpu (some d)) + flag (busy (cpus cpu))
      ≡ busy_count n cpus + flag d.rt_busy
busy_count-update zero cpu cpus d h = absurd (omega arith)
busy_count-update (suc n) cpu cpus d h = elim (Bool-cases (cpu == n)) [
  | inl last ↦
      let same : cpu ≡ n = ==→eq cpu n last in
      rw same (rw (==-self n) (omega (arith, busy_count-above n n cpus d)))
  | inr below ↦ rw below (ground (arith, busy_count-update n cpu cpus d))
]

-- The count is exact, for a machine whose cpus a u64 can count.
pub record Counted (m : Machine) (w : World) : Type 0 where
  pub exact : w.nr_rt_busy ≡ busy_count m.nr_cpu_ids w.cpus
  pub few : m.nr_cpu_ids < 2 ^ 32

pub SameRt-Counted : (m : Machine) (w w' : World) → SameRt w w' → Counted m w → Counted m w'
SameRt-Counted m w w' h k = record {
  exact = h.count ∙ k.exact ∙ sym (busy_count-same m.nr_cpu_ids w.cpus w'.cpus h.flags);
  few = k.few;
}

note_switch-Counted :
    (m : Machine) (cpu : ℕ) (rt : Bool) (d : DispatchCtx) (w : World)
    → cpu < m.nr_cpu_ids
    → w.cpus cpu ≡ some d
    → Counted m w
    → Counted m (note_switch cpu rt d w)
unfolding note_switch
note_switch-Counted m cpu rt d w h e k =
    let moved = busy_count-update m.nr_cpu_ids cpu w.cpus (record d { rt_busy = rt }) h in
    let few = busy_count-le m.nr_cpu_ids (update w.cpus cpu (some (record d { rt_busy = rt }))) in
    let old = busy_count-le m.nr_cpu_ids w.cpus in
    record { exact = ground (arith, moved, few, old, k.exact, k.few, ap busy e); few = k.few }

kick_tiers-SameRt :
    (m : Machine) (cpu rounds tier : ℕ) (w : World) → SameRt w (kick_tiers m cpu rounds tier w)
unfolding kick_tiers kick_for kick_found
kick_tiers-SameRt m cpu zero tier w = SameRt-refl w
kick_tiers-SameRt m cpu (suc rounds) tier w =
    let rest = kick_tiers-SameRt m cpu rounds (tier + 1) w in
    record { count = ground (arith, rest.count); flags = λ c. ground (arith, rest.flags c) }

leave_cpu-SameRt : (m : Machine) (cpu : ℕ) (w : World) → SameRt w (leave_cpu m cpu w)
unfolding leave_cpu kick_idle_for_waiting
leave_cpu-SameRt m cpu w =
    let kept = kick_tiers-SameRt m cpu 4 1 w in
    let requeued = kick_tiers-SameRt m cpu 4 1 (emit reenqueue_local w) in
    record {
      count = ground (arith, kept.count, requeued.count);
      flags = λ c. ground (arith, kept.flags c, requeued.flags c);
    }

-- A context switch on a cpu keeps the count exact, whatever the cpu ran before and runs next.
pub lunar_sched_switch-Counted :
    (m : Machine) (cpu : ℕ) (next : Task) (w : World)
    → cpu < m.nr_cpu_ids
    → Counted m w
    → Counted m (lunar_sched_switch m cpu next w)
unfolding lunar_sched_switch
lunar_sched_switch-Counted m cpu next w h k = elim (Option-cases (get_dispatch_ctx w cpu)) [
  | inl e ↦ rw (e, lunar_sched_switch) k
  | inr (d, e) ↦
      let noted = note_switch-Counted m cpu (is_rt_task next) d w h e k in
      rw (e, lunar_sched_switch)
        (if_cases (Counted m) (is_rt_task next) _ _
          (λ _. SameRt-Counted m _ _ (leave_cpu-SameRt m cpu _) noted) (λ _. noted))
]

note_switch-busy :
    (cpu : ℕ) (rt : Bool) (d : DispatchCtx) (w : World)
    → w.cpus cpu ≡ some d
    → busy ((note_switch cpu rt d w).cpus cpu) ≡ rt
unfolding note_switch
note_switch-busy cpu rt d w e = ground (arith, ap busy e, ==-self cpu)

-- After a context switch on a cpu with a context, its flag tells whether the next task is realtime.
pub lunar_sched_switch-busy :
    (m : Machine) (cpu : ℕ) (next : Task) (w : World) (d : DispatchCtx)
    → w.cpus cpu ≡ some d
    → busy ((lunar_sched_switch m cpu next w).cpus cpu) ≡ is_rt_task next
unfolding lunar_sched_switch
lunar_sched_switch-busy m cpu next w d e =
    let noted = note_switch-busy cpu (is_rt_task next) d w e in
    let left = leave_cpu-SameRt m cpu (note_switch cpu (is_rt_task next) d w) in
    rw (e, lunar_sched_switch)
      (if_cases (λ (v : World). busy (v.cpus cpu) ≡ is_rt_task next) (is_rt_task next) _ _
        (λ _. left.flags cpu ∙ noted) (λ _. noted))
