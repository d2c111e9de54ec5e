-- ===== src/Tests/Driving.antt =====
-- The driving verbs at a box whose commands succeed.
use gc_runtime_nomad.Base.{ℕ, [], ◌∷◌, ◌≡◌, refl, lookup}
use gc_runtime_nomad.Lifecycle.Error.{ok}
use gc_runtime_nomad.Lifecycle.Types.{is_terminal_status}
use gc_runtime_nomad.Lifecycle.World.{Lifecycle, ◌>>=◌}
use gc_runtime_nomad.Lifecycle.Sidecar.{decode, disk, load}
use gc_runtime_nomad.Lifecycle.Recover.{first_live}
use gc_runtime_nomad.Lifecycle.Alloc.{
  tmux_session_name, resolve_from, resolve, pick_live, found_live, current_alloc_record,
  current_alloc, run_driving_verb,
}
use gc_runtime_nomad.Lifecycle.Driving.{peek_command, op_send_keys, op_peek}
use gc_runtime_nomad.Lifecycle.Driving.Delivery.{IsDelivered, op_send_keys-IsDelivered}
use gc_runtime_nomad.Tests.Cluster.{small, small_client, bound_world}

abbrev up : Lifecycle ℕ
up = record small {
  client = record small_client { exec_alloc = λ alloc task command n. (ok (0, "pane"), n) };
}

keys_run : op_send_keys up "s" ("Enter" ∷ []) bound_world ≡ (ok tt, bound_world)
unfolding op_send_keys run_driving_verb ◌>>=◌ load disk decode lookup current_alloc
    current_alloc_record resolve_from resolve pick_live found_live first_live is_terminal_status
keys_run = refl

op_send_keys-IsDelivered_example :
    IsDelivered up "s"
      ("tmux" ∷ "send-keys" ∷ "-t" ∷ tmux_session_name ∷ "Enter" ∷ [])
      bound_world
      bound_world
op_send_keys-IsDelivered_example =
    op_send_keys-IsDelivered up "s" ("Enter" ∷ []) bound_world bound_world keys_run

peek_runs : op_peek up "s" 5 bound_world ≡ (ok "pane", bound_world)
unfolding op_peek ◌>>=◌ load disk decode lookup current_alloc current_alloc_record resolve_from
    resolve pick_live found_live first_live is_terminal_status peek_command
peek_runs = refl

peek_history : peek_command 5 ≡ "tmux" ∷ "capture-pane" ∷ "-t" ∷ "main" ∷ "-p" ∷ "-S" ∷ "-5" ∷ []
unfolding peek_command
peek_history = refl
