-- ===== src/Lifecycle/Doors.antt =====
-- runtime/ops.go: the doors of a session (opProvision, opStart, opRelaunch, opExec).
pub mod Laws
pub mod Placement
use gc_runtime_nomad.Base.{
  ℕ, zero, suc, ◌+◌, Bool, true, false, not, ◌&&◌, ◌||◌, Option, none, some, List, [], ◌∷◌, String,
  Dict, value_of, ◌==◌, leb, ltb, str_eq, itoa, trim_space, concat, if◌then◌else◌,
}
use gc_runtime_nomad.Lifecycle.Error.{Err, message, wrap, Result, ok, err}
use gc_runtime_nomad.Lifecycle.Types.{Binding, zero_binding, StageConfig, AllocRecord}
use gc_runtime_nomad.Lifecycle.World.{
  Lifecycle, PlacementFailure, World, M, pure, raise, attempt, annotate, lift, call, observe, ◌>>=◌,
  ◌>>◌,
}
use gc_runtime_nomad.Lifecycle.Excerpt.{exec_excerpt}
use gc_runtime_nomad.Lifecycle.Sidecar.{load}
use gc_runtime_nomad.Lifecycle.Recover.{live_child}
use gc_runtime_nomad.Lifecycle.Alloc.{
  exec_task_name, with_lock, current_alloc, retry_alloc_exec_ready, await_exec_alloc_ready,
}
use gc_runtime_nomad.Lifecycle.Roster.{any_live}
use gc_runtime_nomad.Lifecycle.Dispatch.{dispatch}
use gc_runtime_nomad.Lifecycle.Launch.{confirm_launched}
use gc_runtime_nomad.Lifecycle.Adopt.{adopt_existing}
use gc_runtime_nomad.Lifecycle.Stage.{stage_tracked}
use gc_runtime_nomad.Lifecycle.Prime.{startup_prime_detached}
use gc_runtime_nomad.Staging.Env.{box_filesystem_env_input}
use gc_runtime_nomad.Staging.LaunchCommand.{
  build_launch_command_for_pane, build_launch_command_for_tmux,
}
use gc_runtime_nomad.Wire.Texts.{separable_transport_launch}
use gc_runtime_nomad.Lifecycle.Launching.{zero_config, mark_launched, mark_transport_launched}
use gc_runtime_nomad.Lifecycle.Placing.{confirm_dispatch_placed}

unfoldable pub session_agent_image : StageConfig → String
session_agent_image cfg = trim_space (value_of "GC_NOMAD_AGENT_IMAGE" cfg.env)

module _ {N : Type 0} (l : Lifecycle N) where
  unfoldable pub provision_fresh : String → StageConfig → M N (Unit {0})
  provision_fresh session cfg = do
    dispatch l session (session_agent_image cfg)
    confirm_dispatch_placed l session
    stage_tracked l session cfg

  unfoldable pub provision_from : String → StageConfig → Option Binding → M N (Unit {0})
  provision_from session cfg none = provision_fresh session cfg
  provision_from session cfg (some b) = do
    reuse ← adopt_existing l session b
    if reuse then stage_tracked l session cfg else provision_fresh session cfg

  unfoldable pub op_provision_with_config : String → StageConfig → M N (Unit {0})
  op_provision_with_config session cfg =
      with_lock l session (live_child l session >>= provision_from session cfg)

  unfoldable pub op_provision : String → M N (Unit {0})
  op_provision session = op_provision_with_config session zero_config

  unfoldable pub start_staged : String → StageConfig → M N (Unit {0})
  start_staged session cfg = do stage_tracked l session cfg; mark_launched l session cfg

  unfoldable pub start_fresh : String → StageConfig → M N (Unit {0})
  start_fresh session cfg = do
    dispatch l session (session_agent_image cfg)
    start_staged session cfg

  unfoldable pub start_from : String → StageConfig → Option Binding → M N (Unit {0})
  start_from session cfg none = start_fresh session cfg
  start_from session cfg (some b) = do
    reuse ← adopt_existing l session b
    if reuse then start_staged session cfg else start_fresh session cfg

  unfoldable pub op_start_with_config : String → StageConfig → M N (Unit {0})
  op_start_with_config session cfg =
      with_lock l session (live_child l session >>= start_from session cfg)

  unfoldable pub op_start : String → M N (Unit {0})
  op_start session = op_start_with_config session zero_config

  unfoldable pub op_relaunch : String → M N (Unit {0})
  op_relaunch session = do
    annotate "relaunching session" (current_alloc l session)
    mark_launched l session zero_config

  -- Any other command: its exit code and output are the operation's.
  unfoldable pub exec_plain : String → List String → M N (ℕ × String)
  exec_plain session command = do
    alloc ← current_alloc l session
    (exit_code, out, box_err) ←
        annotate "exec on session"
          (call (l.client.exec_alloc_observed alloc exec_task_name command))
    pure (exit_code, out)

  unfoldable pub exec_transport : String → List String → M N (ℕ × String)
  exec_transport session transport = do
    annotate "launching transport session" (mark_transport_launched l session transport)
    pure (0, "")

  unfoldable pub op_exec : String → List String → M N (ℕ × String)
  op_exec session command = elim (separable_transport_launch command) [
    | none ↦ exec_plain session command
    | some transport ↦ with_lock l session (exec_transport session transport)
  ]
