-- ===== src/Dispatch/Frame.antt =====
-- A dispatch leaves the contexts of the tasks alone, and of the cpus all but the tier stamps and the
-- override.
use lunar_sched.Base.{
  ℕ, ◌≡◌, refl, ◌∙◌, inl, inr, Bool, Option, none, some, arith, Option-cases, ◌==◌, ==→eq,
  Bool-cases,
}
use lunar_sched.Cpus.{modify_cpu, get_dispatch_ctx}
use lunar_sched.Datatypes.{DispatchCtx}
use lunar_sched.Dispatch.Logic.{Rules, IsLabel}
use lunar_sched.Dispatch.Logic.Whole.{dispatch_dsq_per_cpu-Returns}
use lunar_sched.Dispatch.Order.{dispatch_dsq_per_cpu}
use lunar_sched.Dsq.{get_cpu_dsq_from_type, stamp_tier_head_ts}
use lunar_sched.Kernel.{Machine, World, move_to_local, emit, put_cpu}

-- What a cpu runs.
abbrev pub runs : Option DispatchCtx → Option (ℕ × Bool × Bool)
runs none = none
runs (some d) = some (d.current_task_dsq_type, d.rt_busy, d.preempt_pending)

pub record Frame (w w' : World) : Type 0 where
  pub tasks : w'.tasks ≡ w.tasks
  pub nr_rt_busy : w'.nr_rt_busy ≡ w.nr_rt_busy
  pub scratch : w'.scratch ≡ w.scratch
  pub cpus : (c : ℕ) → runs (w'.cpus c) ≡ runs (w.cpus c)

pub Frame-refl : (w : World) → Frame w w
Frame-refl w = record { tasks = refl; nr_rt_busy = refl; scratch = refl; cpus = λ c. refl }

pub Frame-trans : (a b c : World) → Frame a b → Frame b c → Frame a c
Frame-trans a b c h k = record {
  tasks = k.tasks ∙ h.tasks;
  nr_rt_busy = k.nr_rt_busy ∙ h.nr_rt_busy;
  scratch = k.scratch ∙ h.scratch;
  cpus = λ i. k.cpus i ∙ h.cpus i;
}

stamp_tier_head_ts-IsLabel : (tier now : ℕ) → IsLabel (stamp_tier_head_ts tier now)
unfolding stamp_tier_head_ts
stamp_tier_head_ts-IsLabel tier now d = ground arith

put_cpu-runs :
    (w : World) (cpu : ℕ) (d d' : DispatchCtx) (c : ℕ)
    → w.cpus cpu ≡ some d
    → runs (some d') ≡ runs (some d)
    → runs ((put_cpu cpu d' w).cpus c) ≡ runs (w.cpus c)
put_cpu-runs w cpu d d' c e k = elim (Bool-cases (cpu == c)) [
  | inl same ↦ rw same (rw (← ==→eq cpu c same) (rw e k))
  | inr other ↦ rw other
]

pub modify_cpu-Frame :
    (cpu : ℕ) (f : DispatchCtx → DispatchCtx) (w : World) → IsLabel f → Frame w (modify_cpu cpu f w)
unfolding modify_cpu
modify_cpu-Frame cpu f w h = elim (Option-cases (get_dispatch_ctx w cpu)) [
  | inl e ↦ rw (e, modify_cpu) (Frame-refl w)
  | inr (d, e) ↦
      rw (e, modify_cpu)
        (record {
          tasks = refl;
          nr_rt_busy = refl;
          scratch = refl;
          cpus = λ c. put_cpu-runs w cpu d (f d) c e (ground (arith, h d));
        })
]

frame : (m : Machine) (cpu : ℕ) → Rules m cpu (λ tier. Frame) Frame
frame m cpu = record {
  searches = record {
    still = Frame-refl;
    then_miss = Frame-trans;
    then_hit = λ tier. Frame-trans;
    clock = λ now w. record { tasks = refl; nr_rt_busy = refl; scratch = refl; cpus = λ c. refl };
    random = λ n w. record { tasks = refl; nr_rt_busy = refl; scratch = refl; cpus = λ c. refl };
    refused = λ tier c w t src e. record {
      tasks = refl;
      nr_rt_busy = refl;
      scratch = refl;
      cpus = λ c. refl;
    };
    taken = λ tier c now w t src.
        let w1 : World = emit (move_to_local (get_cpu_dsq_from_type tier c) Bool.true) w in
        let k =
          modify_cpu-Frame c (stamp_tier_head_ts tier now) w1
            (stamp_tier_head_ts-IsLabel tier now) in
        record { tasks = k.tasks; nr_rt_busy = k.nr_rt_busy; scratch = k.scratch; cpus = k.cpus };
  };
  label_miss = λ f w h. modify_cpu-Frame cpu f w h;
  label_hit = λ tier f a b h k. Frame-trans a b _ k (modify_cpu-Frame cpu f b h);
}

-- Whatever a dispatch does, no task's context, no realtime flag and no running tier changes.
pub dispatch_dsq_per_cpu-Frame :
    (m : Machine) (cpu prev_tier : ℕ) (w : World)
    → Frame w (dispatch_dsq_per_cpu m cpu prev_tier w).1
dispatch_dsq_per_cpu-Frame m cpu prev_tier w =
    elim (dispatch_dsq_per_cpu-Returns (frame m cpu) prev_tier w) [
      | inl (t, k) ↦ k
      | inr (t, k) ↦ k
    ]
