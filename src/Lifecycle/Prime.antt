-- ===== src/Lifecycle/Prime.antt =====
-- runtime/prime.go and runtime/staging.go: handing a launched pane its first prompt
-- (startupPrimeDetached, primeWindowExists, primeFilesFor and the prompt's settings). The script that
-- the window runs is a parameter; what is only read for an error's text is dropped.
pub mod Laws
use gc_runtime_nomad.Base.{
  ℕ, Bool, true, false, not, ◌||◌, Option, none, some, List, [], ◌∷◌, String, value_of, ◌==◌, ltb,
  str_eq, atoi, itoa, split, trim_space, if◌then◌else◌,
}
use gc_runtime_nomad.Lifecycle.Error.{Err, message, Result, ok, err}
use gc_runtime_nomad.Lifecycle.Types.{Binding, StageConfig}
use gc_runtime_nomad.Lifecycle.World.{
  Lifecycle, World, archive, M, pure, raise, attempt, annotate, lift, call, ◌>>=◌, ◌>>◌,
}
use gc_runtime_nomad.Lifecycle.Sidecar.{load}
use gc_runtime_nomad.Lifecycle.Alloc.{exec_task_name, current_alloc}
use gc_runtime_nomad.Lifecycle.Stage.{startup_prompt, exec_stage}
use gc_runtime_nomad.Staging.Script.{StageFile, private_mode}
use gc_runtime_nomad.Staging.StagePath.{build_tar}

-- A setting of the session's environment, or the other text.
unfoldable pub env_or : StageConfig → String → String → String
env_or cfg key other =
    let value = trim_space (value_of key cfg.env) in if str_eq value "" then other else value

unfoldable pub loading_marker : StageConfig → String
unfolding env_or
loading_marker cfg = env_or cfg "GC_PRIME_LOADING_MARKER" "loading"

unfoldable pub busy_marker : StageConfig → String
unfolding env_or
busy_marker cfg = env_or cfg "GC_PRIME_BUSY_MARKER" "esc to interrupt"

unfoldable pub ready_prompt_prefix_of : StageConfig → String
unfolding env_or
ready_prompt_prefix_of cfg = env_or cfg "GC_PRIME_READY_PREFIX" cfg.ready_prompt_prefix

unfoldable pub ready_delay_ms_of : StageConfig → ℕ
ready_delay_ms_of cfg = elim (atoi (trim_space (value_of "GC_PRIME_READY_DELAY_MS" cfg.env))) [
  | none ↦ cfg.ready_delay_ms
  | some n ↦ n
]

-- readyDelayMs; primeDefaultReadyDelayMs is 1500
unfoldable pub delay_or_default : ℕ → ℕ
delay_or_default wire = if ltb 0 wire then wire else 1500

abbrev pub prime_file : String → String → StageFile
prime_file name content = record { path = name; content = content; mode = private_mode }

-- primeFilesFor and buildPrimeFiles
unfoldable pub prime_files_for : String → String → StageConfig → List StageFile
unfolding loading_marker busy_marker ready_prompt_prefix_of ready_delay_ms_of delay_or_default itoa
prime_files_for script text cfg =
    (record { path = "run.sh"; content = script; mode = 493 })
    ∷ prime_file "nudge.txt" text
    ∷ prime_file "ready_prefix.txt" (ready_prompt_prefix_of cfg)
    ∷ prime_file "loading_marker.txt" (loading_marker cfg)
    ∷ prime_file "busy_marker.txt" (busy_marker cfg)
    ∷ prime_file "ready_delay_ms.txt" (itoa (delay_or_default (ready_delay_ms_of cfg)))
    ∷ []

abbrev pub stage_prime_command : List String
stage_prime_command =
    "/bin/sh" ∷ "-c"
    ∷ "mkdir -p \"$NOMAD_SECRETS_DIR/gc-prime\" && tar -x -f - -C \"$NOMAD_SECRETS_DIR/gc-prime\""
    ∷ "stage-prime" ∷ []

abbrev pub spawn_prime_command : List String
spawn_prime_command =
    "/bin/sh" ∷ "-c"
    ∷ "tmux new-window -d -t main -n gc-prime '/bin/sh \"$NOMAD_SECRETS_DIR/gc-prime/run.sh\"'" ∷ []

abbrev pub list_windows_command : List String
list_windows_command =
    "/bin/sh" ∷ "-c" ∷ "tmux list-windows -t main -F '#{window_name}' 2>/dev/null || true" ∷ []

unfoldable pub any_window : List String → Bool
any_window [] = false
any_window (name ∷ names) = str_eq (trim_space name) "gc-prime" || any_window names

module _ {N : Type 0} (l : Lifecycle N) where
  unfoldable pub prime_window_exists : String → M N Bool
  prime_window_exists session = do
    alloc ← current_alloc l session
    (exit_code, out) ← call (l.client.exec_alloc alloc exec_task_name list_windows_command)
    pure (if exit_code == 0 then any_window (split 10 out) else false)

  unfoldable pub spawn_prime : String → M N (Unit {0})
  spawn_prime session = do
    alloc ← current_alloc l session
    (exit_code, out, box_err) ←
        annotate "spawning prime window"
          (call (l.client.exec_alloc_observed alloc exec_task_name spawn_prime_command))
    if exit_code == 0
        then pure tt
        else raise (message "spawning prime window: tmux new-window exited")

  unfoldable pub stage_prime : String → String → StageConfig → M N (Unit {0})
  stage_prime session text cfg = do
    entries ←
        annotate "building prime script"
          (lift (build_tar (prime_files_for l.prime_script text cfg)))
    annotate "staging prime script" (exec_stage l session stage_prime_command (archive entries))
    spawn_prime session

  -- A failed look for the window is logged, and nothing is started.
  unfoldable pub prime_unless : String → String → StageConfig → Result Bool → M N (Unit {0})
  prime_unless session text cfg (err e) = pure tt
  prime_unless session text cfg (ok true) = pure tt
  prime_unless session text cfg (ok false) = stage_prime session text cfg

  unfoldable pub prime_bound : String → String → StageConfig → Option ℕ → M N (Unit {0})
  prime_bound session text cfg (some at) = pure tt
  prime_bound session text cfg none =
      attempt (prime_window_exists session) >>= prime_unless session text cfg

  unfoldable pub prime_from : String → String → StageConfig → Option Binding → M N (Unit {0})
  prime_from session text cfg none =
      raise (message "binding vanished before the startup prompt could be primed")
  prime_from session text cfg (some b) = prime_bound session text cfg b.prompted_at

  unfoldable pub startup_prime_detached : String → StageConfig → M N (Unit {0})
  startup_prime_detached session cfg =
      if str_eq (startup_prompt cfg) ""
      then pure tt
      else load l session >>= prime_from session (startup_prompt cfg) cfg
