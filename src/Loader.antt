-- ===== src/Loader.antt =====
-- source/main.cpp: the process that opens, loads and attaches the scheduler, and restarts it when the kernel asks.
pub mod Logic
pub mod Rounds
pub mod Phases
pub mod Exit
pub mod Ends
pub mod Ejected
use lunar_sched.Base.{
  ℕ, zero, suc, Bool, true, false, not, Option, none, some, List, [], ◌∷◌, if◌then◌else◌,
}
use lunar_sched.Base.Int.{ℤ, is_zero}
use lunar_sched.Datatypes.{Rodata}
use lunar_sched.Text.{Bytes}
use lunar_sched.ExitInfo.{UserExitInfo, Line, uei_exited, uei_report, uei_ecode_restart}
use lunar_sched.Topology.Setup.{Message, Setup, setup_lunar_topology}
use lunar_sched.Topology.Sysfs.{Host, FsPath}

-- What is printed.
pub data Output : Type 0 where
  no_skeleton : Output
  no_llc_information : Output
  load_failed : ℤ → Output
  loaded_well : Output
  attaching : Output
  attach_failed : ℤ → Output
  running_well : Output
  restarting : Output
  shutting_down : Output
  of_topology : List Message → Output
  of_exit : List Line → Output

-- The calls made, with their answers; `read_stop` and `read_exited` are the tests of the flag and of the exit info.
pub data Event : Type 0 where
  said : Output → Event
  opened : Bool → Event
  enums_set : Event
  hotplug_seq_set : ℤ → Event
  dump_sized : Event
  topology_set : Bool → Event
  loaded : ℤ → Event
  attached : ℤ → Event
  read_stop : Bool → Event
  read_exited : Bool → Event
  slept : Event
  reported : ℕ → Event
  destroyed : Event

abbrev pub Trace : Type 0
Trace = List Event

-- What `scx_hotplug_seq` comes to: the number of hotplug events so far, or the exit of the process by SCX_BUG_ON.
pub data Sequence : Type 0 where
  sequence : ℤ → Sequence
  bug : Sequence

-- What the process finds around it, which may depend on all calls made so far, newest first: libbpf with the skeleton
-- (`open_skeleton` is the read-only data of a new one), sysfs, the flag that the signal handler sets, and the exit info
-- in the skeleton's data; `hotplug_seq` is what `scx_hotplug_seq` of the headers of sched_ext answers.
pub record Os : Type 0 where
  pub open_skeleton : Trace → Option Rodata
  pub hotplug_seq : Trace → Sequence
  pub host : Trace → Host
  pub cpu_root : FsPath
  pub load : Trace → Rodata → ℤ
  pub attach : Trace → ℤ
  pub stop : Trace → Bool
  pub uei : Trace → UserExitInfo

-- A run of a part of the program: it returns, reaches undefined behaviour, ends the process at once (SCX_BUG_ON), or
-- runs out of fuel.
pub data Outcome {ℓ} (A : Type ℓ) : Type ℓ where
  returned : A → Trace → Outcome A
  undefined_behaviour : Outcome A
  aborted : Outcome A
  unfinished : Outcome A

abbrev pub M : Type 0 → Type 0
M A = Trace → Outcome A

abbrev pub then_run : {A B : Type 0} → Outcome A → (A → M B) → Outcome B
then_run (returned a t) f = f a t
then_run undefined_behaviour f = undefined_behaviour
then_run aborted f = aborted
then_run unfinished f = unfinished

infixl 5 ◌>>=◌ ◌>>◌
abbrev pub ◌>>=◌ : {A B : Type 0} → M A → (A → M B) → M B
◌>>=◌ m f t = then_run (m t) f

abbrev pub ◌>>◌ : {A B : Type 0} → M A → M B → M B
m >> n = m >>= λ a. n

abbrev pub pure : {A : Type 0} → A → M A
pure a t = returned a t

abbrev pub call : Event → M (Unit {0})
call e t = returned tt (e ∷ t)

-- A call with an answer, which may depend on the calls before it.
abbrev pub ask : {A : Type 0} → (Trace → A) → (A → Event) → M A
ask answer event t = returned (answer t) (event (answer t) ∷ t)

abbrev pub say : Output → M (Unit {0})
say line = call (said line)

pub data RunResult : Type 0 where
  stopped : RunResult
  restart : RunResult
  failed : RunResult

abbrev pub is_some {ℓ} : {A : Type ℓ} → Option A → Bool
is_some none = false
is_some (some a) = true

module _ (os : Os) where
  abbrev pub read_the_stop : M Bool
  read_the_stop = ask os.stop read_stop

  -- The test of UEI_EXITED.
  abbrev pub read_the_exit : M Bool
  read_the_exit = ask (λ t. uei_exited (os.uei t)) read_exited

  -- `while (!stop)`, with whether the kernel ejected the scheduler.
  unfoldable pub wait_for_end : ℕ → M Bool
  wait_for_end zero = λ t. unfinished
  wait_for_end (suc fuel) = do
    stopping ← read_the_stop
    elim stopping [
      | true ↦ pure false
      | false ↦ do
        exited ← read_the_exit
        elim exited [ true ↦ pure true | false ↦ do call slept; wait_for_end fuel ]
    ]

  -- `UEI_REPORT`, which prints and gives the exit code.
  unfoldable pub report : M ℕ
  report = do
    uei ← λ t. returned (os.uei t) t
    say (of_exit (uei_report uei).0)
    call (reported (uei_report uei).1)
    pure (uei_report uei).1

  abbrev pub result_of : Bool → M RunResult
  result_of false = pure stopped
  result_of true = do ecode ← report; pure (if uei_ecode_restart ecode then restart else failed)

  abbrev pub destroy_and : RunResult → M RunResult
  destroy_and result = do call destroyed; pure result

  -- From the attached scheduler on.
  unfoldable pub run_attached : ℕ → M RunResult
  run_attached fuel = do
    say running_well
    ejected ← wait_for_end fuel
    result ← result_of ejected
    destroy_and result

  unfoldable pub run_loaded : ℕ → M RunResult
  run_loaded fuel = do
    say loaded_well
    say attaching
    err ← ask os.attach attached
    if is_zero err then run_attached fuel else (do say (attach_failed err); destroy_and failed)

  unfoldable pub run_set : ℕ → Rodata → M RunResult
  run_set fuel rodata = do
    err ← ask (λ t. os.load t rodata) loaded
    if is_zero err then run_loaded fuel else (do say (load_failed err); destroy_and failed)

  -- `setup_lunar_topology` on the object, with what it prints.
  unfoldable pub set_topology : Rodata → M Setup
  set_topology rodata t = elim (setup_lunar_topology (os.host t) os.cpu_root rodata) [
    | none ↦ undefined_behaviour
    | some s ↦ returned s (topology_set s.done ∷ said (of_topology s.printed) ∷ t)
  ]

  -- The number of hotplug events goes into the skeleton, unless it cannot be read.
  unfoldable pub set_hotplug_seq : M (Unit {0})
  set_hotplug_seq t = elim (os.hotplug_seq t) [
    | sequence n ↦ returned tt (hotplug_seq_set n ∷ t)
    | bug ↦ aborted
  ]

  unfoldable pub run_opened : ℕ → Rodata → M RunResult
  run_opened fuel rodata = do
    call enums_set
    set_hotplug_seq
    call dump_sized
    s ← set_topology rodata
    if s.done then run_set fuel s.rodata else (do say no_llc_information; destroy_and failed)

  unfoldable pub run_once : ℕ → M RunResult
  run_once fuel = do
    skeleton ← ask os.open_skeleton (λ answer. opened (is_some answer))
    elim skeleton [ none ↦ do say no_skeleton; pure failed | some rodata ↦ run_opened fuel rodata ]

  -- `result == RunResult::Restart && !stop`
  unfoldable pub wants_restart : RunResult → M Bool
  wants_restart restart = do stopping ← read_the_stop; pure (not stopping)
  wants_restart stopped = pure false
  wants_restart failed = pure false

  abbrev pub say_if : Bool → Output → M (Unit {0})
  say_if true line = say line
  say_if false line = pure tt

  -- The loop of `main`, of at most so many runs, each of at most `fuel` rounds of waiting.
  unfoldable pub run_all : ℕ → ℕ → M RunResult
  run_all zero fuel = λ t. unfinished
  run_all (suc runs) fuel = do
    result ← run_once fuel
    telling ← wants_restart result
    say_if telling restarting
    again ← wants_restart result
    elim again [ true ↦ run_all runs fuel | false ↦ pure result ]

  abbrev pub exit_status : RunResult → ℕ
  exit_status stopped = 0
  exit_status restart = 0
  exit_status failed = 1

  unfoldable pub main : ℕ → ℕ → M ℕ
  main runs fuel = do result ← run_all runs fuel; say shutting_down; pure (exit_status result)
