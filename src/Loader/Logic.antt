-- ===== src/Loader/Logic.antt =====
-- The principle by which facts on a run of the loader are proved: what holds at each point of `run_once`, with a rule
-- for each way from one point to the next.
use lunar_sched.Base.{
  ◌⊎◌, sym, refl, ℕ, ◌≡◌, inl, inr, Bool, true, false, none, ◌∷◌, subst, Bool-cases, Option-cases,
  if◌then◌else◌,
}
use lunar_sched.Base.Int.{ℤ, is_zero}
use lunar_sched.Datatypes.{Rodata}
use lunar_sched.ExitInfo.{uei_report, uei_ecode_restart}
use lunar_sched.Loader.{
  ◌>>=◌, no_skeleton, no_llc_information, load_failed, loaded_well, attaching, attach_failed,
  running_well, of_topology, of_exit, said, opened, enums_set, hotplug_seq_set, dump_sized,
  topology_set, loaded, attached, reported, destroyed, result_of, destroy_and, Os, Trace, Outcome,
  M, returned, undefined_behaviour, aborted, unfinished, then_run, RunResult, stopped, restart,
  failed, wait_for_end, report, run_attached, run_loaded, run_set, set_topology, set_hotplug_seq,
  run_opened, run_once, Sequence, sequence, bug,
}
use lunar_sched.Topology.Setup.{Setup, setup_lunar_topology}

-- `X` is what undefined behaviour and an abort come to, and `U` what the end of the fuel does.
abbrev pub Holds : (X U : Type 0) {A : Type 0} → (A → Trace → Type 0) → Outcome A → Type 0
Holds X U P (returned a t) = P a t
Holds X U P undefined_behaviour = X
Holds X U P aborted = X
Holds X U P unfinished = U

pub then_run-Holds :
    (X U : Type 0) {A B : Type 0} (P : A → Trace → Type 0) (Q : B → Trace → Type 0) (o : Outcome A)
    (f : A → M B)
    → Holds X U P o
    → ((a : A) (t : Trace) → P a t → Holds X U Q (f a t))
    → Holds X U Q (then_run o f)
then_run-Holds X U P Q (returned a t) f h k = k a t h
then_run-Holds X U P Q undefined_behaviour f h k = h
then_run-Holds X U P Q aborted f h k = h
then_run-Holds X U P Q unfinished f h k = h

pub returned-Holds :
    (U : Type 0) {A : Type 0} (P : A → Trace → Type 0) (o : Outcome A) (a : A) (t : Trace)
    → o ≡ returned a t
    → Holds U U P o
    → P a t
returned-Holds U P o a t e h = subst (Holds U U P) e h

Sequence-cases : (q : Sequence) → ((seq : ℤ) × (q ≡ sequence seq)) ⊎ (q ≡ bug)
Sequence-cases (sequence seq) = inl (seq, refl)
Sequence-cases bug = inr refl

-- What holds before a run, after the open, the setup, the load and the attach, after the wait (with whether the
-- scheduler was ejected), and after the run.
pub record Points : Type 1 where
  pub Start : Trace → Type 0
  pub Opened : Trace → Type 0
  pub Ready : Trace → Type 0
  pub Loaded : Trace → Type 0
  pub Running : Trace → Type 0
  pub Waited : Bool → Trace → Type 0
  pub Done : RunResult → Trace → Type 0

abbrev pub prepared : ℤ → Trace → Trace
prepared seq t = dump_sized ∷ hotplug_seq_set seq ∷ enums_set ∷ t

abbrev pub set_up : Setup → Trace → Trace
set_up s t = topology_set s.done ∷ said (of_topology s.printed) ∷ t

pub record Rules (os : Os) (fuel : ℕ) (X U : Type 0) (p : Points) : Type 0 where
  pub absent : (t : Trace) → p.Start t → p.Done failed (said no_skeleton ∷ opened false ∷ t)
  pub opens : (t : Trace) → p.Start t → p.Opened (opened true ∷ t)
  pub undefined :
      (t : Trace) (r : Rodata) → setup_lunar_topology (os.host t) os.cpu_root r ≡ none → X
  pub aborts : (t : Trace) → os.hotplug_seq t ≡ bug → X
  pub readies :
      (t : Trace) (seq : ℤ) (s : Setup)
      → s.done ≡ true
      → p.Opened t
      → p.Ready (set_up s (prepared seq t))
  pub unready :
      (t : Trace) (seq : ℤ) (s : Setup)
      → s.done ≡ false
      → p.Opened t
      → p.Done failed (destroyed ∷ said no_llc_information ∷ set_up s (prepared seq t))
  pub loads : (t : Trace) (err : ℤ) → is_zero err ≡ true → p.Ready t → p.Loaded (loaded err ∷ t)
  pub load_fails :
      (t : Trace) (err : ℤ)
      → is_zero err ≡ false
      → p.Ready t
      → p.Done failed (destroyed ∷ said (load_failed err) ∷ loaded err ∷ t)
  pub attaches :
      (t : Trace) (err : ℤ)
      → is_zero err ≡ true
      → p.Loaded t
      → p.Running (said running_well ∷ attached err ∷ said attaching ∷ said loaded_well ∷ t)
  pub attach_fails :
      (t : Trace) (err : ℤ)
      → is_zero err ≡ false
      → p.Loaded t
      → p.Done failed (
          destroyed
          ∷ said (attach_failed err)
          ∷ attached err
          ∷ said attaching
          ∷ said loaded_well
          ∷ t)
  pub waits : (t : Trace) → p.Running t → Holds X U p.Waited (wait_for_end os fuel t)
  pub stops : (t : Trace) → p.Waited false t → p.Done stopped (destroyed ∷ t)
  pub ejects :
      (t : Trace)
      → p.Waited true t
      → let (lines, code) = uei_report (os.uei t) in
        p.Done
          (if uei_ecode_restart code then restart else failed)
          (destroyed ∷ reported code ∷ said (of_exit lines) ∷ t)

module _ (os : Os) (fuel : ℕ) (X U : Type 0) (p : Points) (r : Rules os fuel X U p) where
  run_attached-Holds :
      (t : Trace) (err : ℤ)
      → is_zero err ≡ true
      → p.Loaded t
      → Holds X U p.Done
          (run_attached os fuel (attached err ∷ said attaching ∷ said loaded_well ∷ t))
  unfolding run_attached report
  run_attached-Holds t err e h =
      then_run-Holds X U p.Waited p.Done _ _ (r.waits _ (r.attaches t err e h)) ended
    where
      ended :
          (ejected : Bool) (t : Trace)
          → p.Waited ejected t
          → Holds X U p.Done ((result_of os ejected >>= destroy_and os) t)
      ended false t k = r.stops t k
      ended true t k = r.ejects t k

  run_loaded-Holds : (t : Trace) → p.Loaded t → Holds X U p.Done (run_loaded os fuel t)
  unfolding run_loaded
  run_loaded-Holds t h =
      let err : ℤ = os.attach (said attaching ∷ said loaded_well ∷ t) in
      elim (Bool-cases (is_zero err)) [
        | inl e ↦ rw e (run_attached-Holds t err e h)
        | inr e ↦ rw e (r.attach_fails t err e h)
      ]

  run_set-Holds :
      (rodata : Rodata) (t : Trace) → p.Ready t → Holds X U p.Done (run_set os fuel rodata t)
  unfolding run_set
  run_set-Holds rodata t h =
      let err : ℤ = os.load t rodata in
      elim (Bool-cases (is_zero err)) [
        | inl e ↦ rw e (run_loaded-Holds _ (r.loads t err e h))
        | inr e ↦ rw e (r.load_fails t err e h)
      ]

  -- What holds behind the setup, whether it succeeded or not.
  Set : Setup → Trace → Type 0
  Set s t =
      (s.done ≡ true → p.Ready t)
      × (s.done ≡ false → p.Done failed (destroyed ∷ said no_llc_information ∷ t))

  set_topology-Holds :
      (rodata : Rodata) (t : Trace) (seq : ℤ)
      → p.Opened t
      → Holds X U Set (set_topology os rodata (prepared seq t))
  unfolding set_topology Set
  set_topology-Holds rodata t seq h =
      elim (Option-cases (setup_lunar_topology (os.host (prepared seq t)) os.cpu_root rodata)) [
        | inl e ↦ rw (e, set_topology) (r.undefined (prepared seq t) rodata e)
        | inr (s, e) ↦
            rw (e, set_topology) ((λ d. r.readies t seq s d h), (λ d. r.unready t seq s d h))
      ]

  set_hotplug_seq-Holds :
      (t : Trace)
      → Holds X U
          (λ u t'. (seq : ℤ) × (dump_sized ∷ t' ≡ prepared seq t))
          (set_hotplug_seq os (enums_set ∷ t))
  unfolding set_hotplug_seq
  set_hotplug_seq-Holds t = elim (Sequence-cases (os.hotplug_seq (enums_set ∷ t))) [
    | inl (seq, e) ↦ rw (e, set_hotplug_seq) (seq, refl)
    | inr e ↦ rw (e, set_hotplug_seq) (r.aborts (enums_set ∷ t) e)
  ]

  run_opened-Holds :
      (rodata : Rodata) (t : Trace) → p.Opened t → Holds X U p.Done (run_opened os fuel rodata t)
  unfolding run_opened Set
  run_opened-Holds rodata t h =
      then_run-Holds X U (λ u t'. (seq : ℤ) × (dump_sized ∷ t' ≡ prepared seq t)) p.Done
        (set_hotplug_seq os (enums_set ∷ t)) _ (set_hotplug_seq-Holds t)
        (λ u t' (seq, e).
          then_run-Holds X U Set p.Done (set_topology os rodata (dump_sized ∷ t')) _
            (subst (λ a. Holds X U Set (set_topology os rodata a)) (sym e)
              (set_topology-Holds rodata t seq h))
            (λ s t'' (ready, unready). elim (Bool-cases s.done) [
              | inl d ↦ rw d (run_set-Holds s.rodata t'' (ready d))
              | inr d ↦ rw d (unready d)
            ]))

  pub run_once-Holds : (t : Trace) → p.Start t → Holds X U p.Done (run_once os fuel t)
  unfolding run_once
  run_once-Holds t h = elim (Option-cases (os.open_skeleton t)) [
    | inl e ↦ rw e (r.absent t h)
    | inr (rodata, e) ↦ rw e (run_opened-Holds rodata _ (r.opens t h))
  ]
