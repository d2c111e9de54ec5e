-- ===== src/Lifecycle/Launching.antt =====
-- runtime/ops.go: starting the agent in its box and recording the launch (launch, launchWithCommand,
-- markLaunched, markTransportLaunched). What is only written to a log is dropped.
pub mod Laws
use gc_runtime_nomad.Base.{
  ℕ, zero, suc, ◌+◌, Bool, true, false, not, ◌&&◌, ◌||◌, Option, none, some, List, [], ◌∷◌, String,
  Dict, value_of, ◌==◌, leb, ltb, str_eq, itoa, trim_space, concat, if◌then◌else◌,
}
use gc_runtime_nomad.Lifecycle.Error.{Err, message, wrap, Result, ok, err}
use gc_runtime_nomad.Lifecycle.Types.{Binding, zero_binding, StageConfig, AllocRecord}
use gc_runtime_nomad.Lifecycle.World.{
  Lifecycle, PlacementFailure, World, M, pure, raise, attempt, annotate, lift, call, observe, ◌>>=◌,
  ◌>>◌,
}
use gc_runtime_nomad.Lifecycle.Excerpt.{exec_excerpt}
use gc_runtime_nomad.Lifecycle.Sidecar.{load}
use gc_runtime_nomad.Lifecycle.Recover.{live_child}
use gc_runtime_nomad.Lifecycle.Alloc.{
  exec_task_name, with_lock, current_alloc, retry_alloc_exec_ready, await_exec_alloc_ready,
}
use gc_runtime_nomad.Lifecycle.Roster.{any_live}
use gc_runtime_nomad.Lifecycle.Dispatch.{dispatch}
use gc_runtime_nomad.Lifecycle.Launch.{confirm_launched}
use gc_runtime_nomad.Lifecycle.Adopt.{adopt_existing}
use gc_runtime_nomad.Lifecycle.Stage.{stage_tracked}
use gc_runtime_nomad.Lifecycle.Prime.{startup_prime_detached}
use gc_runtime_nomad.Staging.Env.{box_filesystem_env_input}
use gc_runtime_nomad.Staging.LaunchCommand.{
  build_launch_command_for_pane, build_launch_command_for_tmux,
}
use gc_runtime_nomad.Wire.Texts.{separable_transport_launch}

-- `stageConfig{}`
abbrev pub zero_config : StageConfig
zero_config = record {
  work_dir = "";
  env = [];
  command = "";
  nudge = "";
  process_names = [];
  ready_prompt_prefix = "";
  ready_delay_ms = 0;
  lifecycle = "";
  pre_start = [];
  session_setup = [];
  session_setup_script = "";
  session_live = [];
  pack_overlay_dirs = [];
  overlay_dir = "";
  copy_files = [];
}

abbrev pub or_zero_binding : Result (Option Binding) → Binding
or_zero_binding (ok none) = zero_binding
or_zero_binding (ok (some b)) = b
or_zero_binding (err e) = zero_binding

abbrev pub or_text : String → String → String
or_text s t = if str_eq s "" then t else s

-- The startup prompt's fields that staging recorded.
abbrev pub pending_config : Binding → StageConfig
pending_config b = elim b.prompt_pending [ none ↦ zero_config | some cfg ↦ cfg ]

module _ {N : Type 0} (l : Lifecycle N) where
  -- `os.Getenv`
  abbrev pub getenv : String → String
  getenv name = elim (l.lookup_env name) [ none ↦ "" | some value ↦ value ]

  unfoldable pub launch_exited : ℕ × String × String → M N (Unit {0})
  launch_exited (exit_code, out, box_err) =
      if exit_code == 0
      then pure tt
      else raise (
          message (
            concat (
              "launch command exited "
              ∷ itoa exit_code
              ∷ ": stdout="
              ∷ exec_excerpt out
              ∷ " stderr="
              ∷ exec_excerpt box_err
              ∷ [])))

  unfoldable pub launch_once : String → List String → M N (Unit {0})
  launch_once alloc command = do
    answer ←
        annotate "launching session"
          (call (l.client.exec_alloc_observed alloc exec_task_name command))
    launch_exited answer

  unfoldable pub launch_with_command : String → List String → M N (Unit {0})
  launch_with_command session command = do
    alloc ← await_exec_alloc_ready l session
    retry_alloc_exec_ready l (launch_once alloc command)

  unfoldable pub launch : String → StageConfig → String → String → M N (Unit {0})
  launch session cfg work_dir command =
      if str_eq (trim_space command) ""
      then raise (message "gc sent no rendered launch command")
      else launch_with_command session
          (build_launch_command_for_pane getenv (box_filesystem_env_input cfg.env) work_dir command)

  -- The directory and the command of the launch: the call's, or those of the first launch.
  unfoldable pub recorded_launch : String → String → String → M N (String × String)
  recorded_launch session work_dir command =
      if not (str_eq work_dir "" || str_eq command "") then pure (work_dir, command) else do
        r ← attempt (load l session)
        let b = or_zero_binding r
        pure (or_text work_dir b.work_dir, or_text command (trim_space b.provider_command))

  unfoldable pub mark_launched : String → StageConfig → M N (Unit {0})
  mark_launched session cfg = do
    (work_dir, command) ← recorded_launch session cfg.work_dir (trim_space cfg.command)
    launch session cfg work_dir command
    confirm_launched l session work_dir command cfg.lifecycle
    startup_prime_detached l session cfg

  unfoldable pub mark_transport_launched : String → List String → M N (Unit {0})
  mark_transport_launched session (program ∷ verb ∷ flag ∷ target ∷ name ∷ pane ∷ []) = do
    r ← attempt (load l session)
    let work_dir = (or_zero_binding r).work_dir
    launch_with_command session
        (build_launch_command_for_tmux getenv [] (verb ∷ flag ∷ target ∷ name ∷ []) work_dir pane)
    again ← attempt (load l session)
    let cfg = pending_config (or_zero_binding again)
    confirm_launched l session work_dir pane cfg.lifecycle
    startup_prime_detached l session cfg
  mark_transport_launched session transport = raise (message "invalid transport launch argv length")
