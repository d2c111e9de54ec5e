-- ===== src/Tests/Doors.antt =====
-- The doors and the program's calls at the small cluster.
use gc_runtime_nomad.Base.{
  ℕ, true, false, some, List, [], ◌∷◌, ◌≡◌, refl, arith, ltb, if◌then◌else◌,
}
use gc_runtime_nomad.Lifecycle.Error.{ok, err, is, sentinel, alloc_not_ready}
use gc_runtime_nomad.Lifecycle.World.{Lifecycle, World, M}
use gc_runtime_nomad.Lifecycle.Alloc.{retryable, alloc_ready_retryable, retry_alloc_exec_ready}
use gc_runtime_nomad.Lifecycle.Alloc.Retry.{start, again, retry_alloc_exec_ready-settles}
use gc_runtime_nomad.Lifecycle.Sidecar.Store.{
  load_op, save_op, remove_op, view, Follows, perform_all, perform_all-Follows,
}
use gc_runtime_nomad.Lifecycle.Launching.{zero_config}
use gc_runtime_nomad.Lifecycle.Doors.{op_provision_with_config}
use gc_runtime_nomad.Lifecycle.Sessions.{Operation, start as start_session, stop, is_running, run}
use gc_runtime_nomad.Lifecycle.Sessions.Order.{IsOrdered, run-IsOrdered}
use gc_runtime_nomad.Command.{Setup}
use gc_runtime_nomad.Command.Calls.{Call}
use gc_runtime_nomad.Tests.Cluster.{small, small_client, launched, empty_world, bound_world}

-- An operation that works from a time on.
abbrev ready_later : M ℕ ℕ
ready_later w = if ltb w.outside 200 then (err (sentinel alloc_not_ready), w) else (ok w.outside, w)

retry_alloc_exec_ready-settles_example :
    retry_alloc_exec_ready small ready_later empty_world
    ≡ (ok 250_000_100, record empty_world { outside = 250_000_100 })
unfolding retryable alloc_ready_retryable is
retry_alloc_exec_ready-settles_example =
    retry_alloc_exec_ready-settles small ready_later 1 empty_world
      (record empty_world { outside = 250_000_100 })
      (again {w = empty_world} {r = err (sentinel alloc_not_ready)} refl refl start) (omega arith)
      refl

perform_all-Follows_example :
    Follows
      (load_op "s" ∷ save_op launched ∷ remove_op "s" ∷ [])
      (perform_all small (load_op "s" ∷ save_op launched ∷ remove_op "s" ∷ []) bound_world).0
      (view bound_world)
      (view (perform_all small (load_op "s" ∷ save_op launched ∷ remove_op "s" ∷ []) bound_world).1)
perform_all-Follows_example =
    perform_all-Follows small (load_op "s" ∷ save_op launched ∷ remove_op "s" ∷ []) bound_world

abbrev operations : List Operation
operations = start_session "s" zero_config ∷ is_running "s" ∷ stop "s" ∷ []

run-IsOrdered_example : IsOrdered (run small operations empty_world)
run-IsOrdered_example = run-IsOrdered small operations empty_world refl

abbrev setup : Setup
setup = record {
  decode_json = λ text. ok zero_config;
  configured = true;
  gc_output = some "remote worker subset";
  gate_skipped = false;
}

abbrev calls : List Call
calls = ("start", "s" ∷ [], "") ∷ ("unknown", [], "") ∷ ("stop", "s" ∷ [], "") ∷ []

-- A box whose process list can be read.
abbrev telling : Lifecycle ℕ
telling = record small {
  client = record small_client {
    exec_alloc = λ alloc task command n. (ok (0, "COMMAND\nsh\n"), n);
  };
}

abbrev provisioned_world : World ℕ
provisioned_world = (op_provision_with_config small "s" zero_config empty_world).1
