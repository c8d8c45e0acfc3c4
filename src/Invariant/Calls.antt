-- ===== src/Invariant/Calls.antt =====
-- The calls of the kernel that are in order: they name queues that `lunar_init` creates and cpus that exist,
-- and grant slices that are not empty.
pub mod Taking
pub mod Placing
pub mod Running
pub mod Created
pub mod Init
use lunar_sched.Base.{ℕ, ◌<◌, ◌≤◌, ◌^◌, ◌≡◌, ◌⊎◌, List, [], ◌∷◌}
use lunar_sched.Base.Int.{pos}
use lunar_sched.Datatypes.{DispatchCtx}
use lunar_sched.Cpus.{modify_cpu}
use lunar_sched.Dispatch.Accounting.{modify_cpu-trace}
use lunar_sched.Dsq.{get_cpu_dsq_from_type, scx_dsq_local}
use lunar_sched.Kernel.{
  Machine, World, Event, Trace, dsq_insert, move_to_local, kick_cpu, clear_idle, set_slice,
  create_dsq, emit,
}
use lunar_sched.Tier.Target.{IsTier}

-- The queue of a tier and a cpu of the machine.
abbrev pub IsQueue : Machine → ℕ → Type 0
IsQueue m dsq =
    (tier : ℕ) × (c : ℕ) × IsTier tier × (c < m.nr_cpu_ids) × (dsq ≡ get_cpu_dsq_from_type tier c)

abbrev pub InOrder : Machine → Event → Type 0
InOrder m (dsq_insert task dsq slice flags) = ((dsq ≡ scx_dsq_local) ⊎ IsQueue m dsq) × (0 < slice)
InOrder m (move_to_local dsq moved) = IsQueue m dsq
InOrder m (create_dsq dsq answer) = IsQueue m dsq
InOrder m (kick_cpu cpu flags) = cpu < m.nr_cpu_ids
InOrder m (clear_idle cpu) = cpu < m.nr_cpu_ids
InOrder m (set_slice task slice) = 0 < slice
InOrder m _ = Unit {0}

abbrev pub AllInOrder : Machine → Trace → Type 0
AllInOrder m [] = Unit {0}
AllInOrder m (e ∷ t) = InOrder m e × AllInOrder m t

-- All calls made up to a world.
pub record Ordered (m : Machine) (w : World) : Type 0 where
  pub calls : AllInOrder m w.trace

-- The kernel answers with cpus that exist.
pub record Answers (m : Machine) : Type 0 where
  pub few : m.nr_cpu_ids ≤ 2 ^ 31
  pub task_cpu_below : (t : Trace) (a : ℕ) → m.task_cpu t a < m.nr_cpu_ids
  pub idle_below : (t : Trace) (a c : ℕ) → m.idle_for t a ≡ pos c → c < m.nr_cpu_ids

pub emit-Ordered :
    (m : Machine) (e : Event) (w : World) → InOrder m e → Ordered m w → Ordered m (emit e w)
emit-Ordered m e w ok h = record { calls = (ok, h.calls) }

pub same_trace : (m : Machine) (w w' : World) → w'.trace ≡ w.trace → Ordered m w → Ordered m w'
same_trace m w w' e h = record { calls = rw e h.calls }

pub modify_cpu-Ordered :
    (m : Machine) (cpu : ℕ) (f : DispatchCtx → DispatchCtx) (w : World)
    → Ordered m w
    → Ordered m (modify_cpu cpu f w)
modify_cpu-Ordered m cpu f w h = same_trace m w _ (modify_cpu-trace cpu f w) h
