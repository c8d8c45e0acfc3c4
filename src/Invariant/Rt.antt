-- ===== src/Invariant/Rt.antt =====
-- Of all operations only `lunar_sched_switch` changes the realtime flags of the cpus and their count.
pub mod Callbacks
pub mod Count
pub mod Running
use lunar_sched.Base.{
  ℕ, zero, suc, ◌+◌, ◌≡◌, refl, sym, ap, ◌∙◌, inl, inr, Bool, true, false, Option, none, some, List,
  [], ◌∷◌, arith, Bool-cases, Option-cases, ◌==◌, ==→eq, u32,
}
use lunar_sched.Base.Int.{ℤ, pos, negsuc}
use lunar_sched.Boost.{Context, charge_override, record_wake_by, record_waker, apply_wake_boost}
use lunar_sched.Cpus.{get_task_ctx, get_dispatch_ctx, modify_cpu}
use lunar_sched.Datatypes.{Task, TaskCtx, DispatchCtx}
use lunar_sched.Dispatch.Frame.{Frame, runs, dispatch_dsq_per_cpu-Frame}
use lunar_sched.Kernel.{Machine, World, Event, emit, put_cpu, put_task}

abbrev pub busy : Option DispatchCtx → Bool
busy none = false
busy (some d) = d.rt_busy

pub record SameRt (w w' : World) : Type 0 where
  pub count : w'.nr_rt_busy ≡ w.nr_rt_busy
  pub flags : (c : ℕ) → busy (w'.cpus c) ≡ busy (w.cpus c)

pub SameRt-refl : (w : World) → SameRt w w
SameRt-refl w = record { count = refl; flags = λ c. refl }

pub SameRt-trans : (a b c : World) → SameRt a b → SameRt b c → SameRt a c
SameRt-trans a b c h k = record { count = k.count ∙ h.count; flags = λ i. k.flags i ∙ h.flags i }

pub emit-SameRt : (a : World) (e : Event) (b : World) → SameRt a b → SameRt a (emit e b)
emit-SameRt a e b h = record { count = h.count; flags = h.flags }

pub put_task-SameRt :
    (a : World) (k : ℕ) (t : TaskCtx) (b : World) → SameRt a b → SameRt a (put_task k t b)
put_task-SameRt a k t b h = record { count = h.count; flags = h.flags }

pub put_cpu-SameRt :
    (a : World) (cpu : ℕ) (d d' : DispatchCtx) (b : World)
    → b.cpus cpu ≡ some d
    → d'.rt_busy ≡ d.rt_busy
    → SameRt a b
    → SameRt a (put_cpu cpu d' b)
put_cpu-SameRt a cpu d d' b e k h = record {
  count = h.count;
  flags = λ c. elim (Bool-cases (cpu == c)) [
    | inl same ↦ rw same (k ∙ sym (ap busy (ap b.cpus (sym (==→eq cpu c same)) ∙ e)) ∙ h.flags c)
    | inr other ↦ rw other (h.flags c)
  ];
}

pub modify_cpu-SameRt :
    (a : World) (cpu : ℕ) (f : DispatchCtx → DispatchCtx) (b : World)
    → ((d : DispatchCtx) → (f d).rt_busy ≡ d.rt_busy)
    → SameRt a b
    → SameRt a (modify_cpu cpu f b)
unfolding modify_cpu
modify_cpu-SameRt a cpu f b k h = elim (Option-cases (get_dispatch_ctx b cpu)) [
  | inl e ↦ rw (e, modify_cpu) h
  | inr (d, e) ↦ rw (e, modify_cpu) (put_cpu-SameRt a cpu d (f d) b e (k d) h)
]

runs-busy : (o o' : Option DispatchCtx) → runs o' ≡ runs o → busy o' ≡ busy o
runs-busy o o' e = ground arith

pub Frame-SameRt : (a b : World) → Frame a b → SameRt a b
Frame-SameRt a b h = record { count = h.nr_rt_busy; flags = λ c. runs-busy _ _ (h.cpus c) }
