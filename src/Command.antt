-- ===== src/Command.antt =====
-- runtime/main.go, run: one call of the program is one operation, its exit code and what it prints
-- (run, lifecycleOps, mintsABox), with runtime/gc_capability.go (classifyWorkerSurface,
-- probeGCWorkerSurfaceFromOutput) and runtime/staging.go (readStageConfig). What goes to stderr is
-- dropped; the operations `protocol`, `help` and `check` change nothing and are not among these.
pub mod Calls
use Prim.Native.String
use gc_runtime_nomad.Base.{
  ℕ, Bool, true, false, not, ◌&&◌, ◌||◌, Option, none, some, List, [], ◌∷◌, ◌++◌, String, ◌==◌,
  str_eq, starts_with, trim_space, contains, split, trim_prefix, any_eq, atoi, concat,
  if◌then◌else◌,
}
use gc_runtime_nomad.Lifecycle.Error.{Err, message, wrap, Result, ok, err}
use gc_runtime_nomad.Lifecycle.Types.{StageConfig}
use gc_runtime_nomad.Lifecycle.World.{Lifecycle, World, M}
use gc_runtime_nomad.Lifecycle.Driving.{
  op_nudge, op_peek, op_interrupt, op_send_keys, op_clear_scrollback,
}
use gc_runtime_nomad.Lifecycle.Alive.{named_process_alive}
use gc_runtime_nomad.Lifecycle.Stop.{op_stop}
use gc_runtime_nomad.Lifecycle.Running.{op_is_running}
use gc_runtime_nomad.Lifecycle.Roster.{op_list_running}
use gc_runtime_nomad.Lifecycle.Launching.{zero_config}
use gc_runtime_nomad.Lifecycle.Doors.{
  op_provision_with_config, op_start_with_config, op_relaunch, op_exec,
}

-- gcWorkerSurface
pub data WorkerSurface : Type 0 where
  surface_unknown surface_present surface_missing surface_absent : WorkerSurface

unfoldable pub classify_worker_surface : String → WorkerSurface
classify_worker_surface output =
    if contains output "remote worker subset"
    then surface_present
    else if contains output "remote support is being enabled incrementally"
    then surface_missing
    else surface_unknown

unfoldable pub probe_from_output : String → WorkerSurface
unfolding classify_worker_surface
probe_from_output out =
    if str_eq (trim_space out) "" then surface_absent else classify_worker_surface out

-- No `gc` on PATH, or what the probe of the one there printed.
unfoldable pub probe_gc : Option String → WorkerSurface
unfolding probe_from_output
probe_gc none = surface_absent
probe_gc (some out) = probe_from_output out

-- The process's surroundings: how JSON decodes, whether newLifecycle succeeds, the gc on PATH, and
-- whether the capability gate is skipped.
pub record Setup : Type 0 where
  pub decode_json : String → Result StageConfig
  pub configured : Bool
  pub gc_output : Option String
  pub gate_skipped : Bool

abbrev pub lifecycle_ops : List String
lifecycle_ops =
    "start" ∷ "stop" ∷ "is-running" ∷ "list-running" ∷ "provision" ∷ "relaunch" ∷ "exec" ∷ "nudge"
    ∷ "peek" ∷ "interrupt" ∷ "send-keys" ∷ "clear-scrollback" ∷ "process-alive" ∷ []

abbrev pub mints_a_box : List String
mints_a_box = "start" ∷ "provision" ∷ "relaunch" ∷ []

unfoldable pub read_stage_config : Setup → String → Result StageConfig
read_stage_config setup stdin =
    if str_eq (trim_space stdin) ""
    then ok zero_config
    else elim (setup.decode_json (trim_space stdin)) [
      | ok cfg ↦ ok cfg
      | err e ↦ err (wrap "decoding start config" e)
    ]

-- The exit code and what is printed on stdout.
abbrev pub Answer : Type 0
Answer = ℕ × String

abbrev pub exit_ok : Answer
exit_ok = (0, "")

abbrev pub exit_error : Answer
exit_error = (1, "")

abbrev pub exit_unknown : Answer
exit_unknown = (2, "")

abbrev pub bool_text : Bool → String
bool_text true = "true\n"
bool_text false = "false\n"

unfoldable pub lines_of : List String → String
lines_of [] = ""
lines_of (name ∷ names) = concat (name ∷ "\n" ∷ lines_of names ∷ [])

-- A session is taken for dead only where that was observed.
abbrev pub alive_text : Bool × Bool → String
alive_text (alive, observed) = if not observed then bool_text true else bool_text alive

-- `strconv.Atoi` of the line count, where a number that is not positive counts as 0.
unfoldable pub negative_count : String → Option ℕ
negative_count digits = if starts_with digits "+" then none else elim (atoi digits) [
  | some n ↦ some 0
  | none ↦ if str_eq digits "9223372036854775808" then some 0 else none
]

unfoldable pub line_count : List String → Option ℕ
unfolding negative_count
line_count [] = some 0
line_count (text ∷ _) =
    if starts_with text "-" then negative_count (trim_prefix text "-") else atoi text

module _ {N : Type 0} where
  -- The end of an operation: its error is printed on stderr, and the exit code is 1.
  unfoldable pub finish : {A : Type 0} → (A → Answer) → Result A × World N → Answer × World N
  finish answer (ok a, w) = (answer a, w)
  finish answer (err e, w) = (exit_error, w)

  abbrev pub done : M N (Unit {0}) → World N → Answer × World N
  done m w = finish (λ _. exit_ok) (m w)

module _ {N : Type 0} (setup : Setup) (l : Lifecycle N) where
  -- The cases of the switch that have a session name.
  unfoldable pub with_config :
      (StageConfig → M N (Unit {0})) → Result StageConfig → World N → Answer × World N
  with_config operation (ok cfg) w = done (operation cfg) w
  with_config operation (err e) w = (exit_error, w)

  unfoldable pub run_exec : String → String → World N → Answer × World N
  run_exec name stdin w =
      if str_eq stdin ""
      then (exit_error, w)
      else finish (λ a. a) (op_exec l name ("/bin/sh" ∷ "-c" ∷ stdin ∷ []) w)

  unfoldable pub run_peek : String → Option ℕ → World N → Answer × World N
  run_peek name none w = (exit_error, w)
  run_peek name (some lines) w = finish (λ out. (0, out)) (op_peek l name lines w)

  unfoldable pub run_named : String → String → List String → String → World N → Answer × World N
  run_named op name more stdin w =
      if str_eq op "start"
      then with_config (op_start_with_config l name) (read_stage_config setup stdin) w
      else if str_eq op "stop"
      then done (op_stop l name) w
      else if str_eq op "is-running"
      then finish (λ running. (0, bool_text running)) (op_is_running l name w)
      else if str_eq op "process-alive"
      then finish (λ seen. (0, alive_text seen)) (named_process_alive l name (split 10 stdin) w)
      else if str_eq op "provision"
      then with_config (op_provision_with_config l name) (read_stage_config setup stdin) w
      else if str_eq op "relaunch"
      then done (op_relaunch l name) w
      else if str_eq op "exec"
      then run_exec name stdin w
      else if str_eq op "nudge"
      then done (op_nudge l name stdin) w
      else if str_eq op "peek"
      then run_peek name (line_count more) w
      else if str_eq op "interrupt"
      then done (op_interrupt l name) w
      else if str_eq op "send-keys"
      then done (op_send_keys l name more) w
      else if str_eq op "clear-scrollback"
      then done (op_clear_scrollback l name) w
      else (exit_unknown, w)

  unfoldable pub run_list : List String → World N → Answer × World N
  run_list [] w = finish (λ names. (0, lines_of names)) (op_list_running l "" w)
  run_list (prefix ∷ _) w = finish (λ names. (0, lines_of names)) (op_list_running l prefix w)

  unfoldable pub run_op : String → List String → String → World N → Answer × World N
  run_op op [] stdin w = if str_eq op "list-running" then run_list [] w else (exit_error, w)
  run_op op (name ∷ more) stdin w =
      if str_eq op "list-running" then run_list (name ∷ more) w else run_named op name more stdin w

  -- The gate of the operations that make a box.
  abbrev pub surface_refuses : WorkerSurface → Bool
  surface_refuses surface_missing = true
  surface_refuses surface_absent = true
  surface_refuses _ = false

  unfoldable pub refused : String → Bool
  refused op =
      any_eq op mints_a_box && not setup.gate_skipped && surface_refuses (probe_gc setup.gc_output)

  unfoldable pub run_command : String → List String → String → World N → Answer × World N
  run_command op rest stdin w =
      if not (any_eq op lifecycle_ops)
      then (exit_unknown, w)
      else if refused op
      then (exit_error, w)
      else if not setup.configured
      then (exit_error, w)
      else run_op op rest stdin w
