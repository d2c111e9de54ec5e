-- ===== src/Lifecycle/Sessions.antt =====
-- runtime/main.go, run: the operations of the sessions, one after the other in any order, each on
-- what the ones before it left (runtime/ops.go).
pub mod Order
use gc_runtime_nomad.Base.{ℕ, List, [], ◌∷◌, String}
use gc_runtime_nomad.Lifecycle.Types.{StageConfig}
use gc_runtime_nomad.Lifecycle.World.{Lifecycle, World, M, ◌>>=◌}
use gc_runtime_nomad.Lifecycle.Driving.{
  op_nudge, op_peek, op_interrupt, op_send_keys, op_clear_scrollback,
}
use gc_runtime_nomad.Lifecycle.Alive.{named_process_alive}
use gc_runtime_nomad.Lifecycle.Stop.{op_stop}
use gc_runtime_nomad.Lifecycle.Running.{op_is_running}
use gc_runtime_nomad.Lifecycle.Roster.{op_list_running}
use gc_runtime_nomad.Lifecycle.Doors.{
  op_provision_with_config, op_start_with_config, op_relaunch, op_exec,
}

pub data Operation : Type 0 where
  provision start : String → StageConfig → Operation
  relaunch stop is_running interrupt clear_scrollback : String → Operation
  exec send_keys process_alive : String → List String → Operation
  nudge : String → String → Operation
  peek : String → ℕ → Operation
  list_running : String → Operation

module _ {N : Type 0} (l : Lifecycle N) where
  -- The world after an operation, whatever it answered.
  unfoldable pub after : Operation → World N → World N
  after (provision session cfg) w = (op_provision_with_config l session cfg w).1
  after (start session cfg) w = (op_start_with_config l session cfg w).1
  after (relaunch session) w = (op_relaunch l session w).1
  after (stop session) w = (op_stop l session w).1
  after (is_running session) w = (op_is_running l session w).1
  after (interrupt session) w = (op_interrupt l session w).1
  after (clear_scrollback session) w = (op_clear_scrollback l session w).1
  after (exec session command) w = (op_exec l session command w).1
  after (send_keys session keys) w = (op_send_keys l session keys w).1
  after (process_alive session names) w = (named_process_alive l session names w).1
  after (nudge session text) w = (op_nudge l session text w).1
  after (peek session lines) w = (op_peek l session lines w).1
  after (list_running prefix) w = (op_list_running l prefix w).1

  unfoldable pub run : List Operation → World N → World N
  run [] w = w
  run (operation ∷ operations) w = run operations (after operation w)
