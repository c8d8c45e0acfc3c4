-- ===== src/Loader/Phases.antt =====
-- The life of the skeleton: opened, set up, loaded, attached and destroyed, in this order.
use lunar_sched.Base.{◌≡◌, true, false, [], ◌∷◌, if◌then◌else◌}
use lunar_sched.Base.Int.{is_zero}
use lunar_sched.Loader.{
  Os, Event, Trace, said, opened, enums_set, hotplug_seq_set, dump_sized, topology_set, loaded,
  attached, read_stop, read_exited, slept, reported, destroyed,
}
use lunar_sched.Loader.Logic.{Points}

pub data Phase : Type 0 where
  closed : Phase
  open_skeleton : Phase
  set : Phase
  in_kernel : Phase
  running : Phase
  ejected : Phase
  broken : Phase

-- The phase after a call. A call in a phase where it has no place breaks the order, for good.
abbrev pub after : Event → Phase → Phase
after (said line) phase = phase
after (read_stop b) phase = phase
after (opened true) closed = open_skeleton
after (opened false) closed = closed
after enums_set open_skeleton = open_skeleton
after (hotplug_seq_set seq) open_skeleton = open_skeleton
after dump_sized open_skeleton = open_skeleton
after (topology_set true) open_skeleton = set
after (topology_set false) open_skeleton = open_skeleton
after (loaded err) set = if is_zero err then in_kernel else open_skeleton
after (attached err) in_kernel = if is_zero err then running else open_skeleton
after (read_exited true) running = ejected
after (read_exited false) running = running
after slept running = running
after (reported code) ejected = ejected
after destroyed open_skeleton = closed
after destroyed running = closed
after destroyed ejected = closed
after _ _ = broken

abbrev pub phase : Trace → Phase
phase [] = closed
phase (event ∷ t) = after event (phase t)

module _ (os : Os) where
  In : Phase → Trace → Type 0
  In x t = phase t ≡ x

  points : Points
  points = record {
    Start = In closed;
    Opened = In open_skeleton;
    Ready = In set;
    Loaded = In in_kernel;
    Running = In running;
    Waited = λ was_ejected. In (if was_ejected then ejected else running);
    Done = λ result. In closed;
  }
