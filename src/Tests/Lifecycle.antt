-- ===== src/Tests/Lifecycle.antt =====
-- The lifecycle at the small cluster.
use gc_runtime_nomad.Base.{
  value_of, ℕ, true, false, none, some, ◌≡◌, refl, ◌≤◌, suc, ◌⊎◌, lookup, insert, erase,
}
use gc_runtime_nomad.Lifecycle.Types.{Binding}
use gc_runtime_nomad.Lifecycle.Recover.{recovered_binding}
use gc_runtime_nomad.Lifecycle.Roster.{op_list_running}
use gc_runtime_nomad.Lifecycle.Error.{ok, is}
use gc_runtime_nomad.Lifecycle.Types.{is_terminal_status}
use gc_runtime_nomad.Lifecycle.World.{World, ◌>>=◌}
use gc_runtime_nomad.Lifecycle.Sidecar.{decode, disk, load, save, remove}
use gc_runtime_nomad.Lifecycle.Recover.{
  first_live, matching, select, recover_binding, live_recovered, live_from, live_child,
}
use gc_runtime_nomad.Lifecycle.Alloc.{
  resolve_from, resolve, pick_live, found_live, current_alloc_record, current_alloc,
  run_driving_verb,
}
use gc_runtime_nomad.Lifecycle.Stop.{
  copy_body, copy_files, copy_allocs, egress_alloc_files, egress_next, egress_attempts,
  flush_marked, egress_marked, mark_egress, save_outcome, deregister, await_stopped, stop_child,
  stop_from, op_stop,
}
use gc_runtime_nomad.Lifecycle.Dispatch.{
  is_current, ensure_parent_registered, intent_for, dispatch_fresh, dispatch_from,
  dispatch_unless_live, dispatch,
}
use gc_runtime_nomad.Lifecycle.Adopt.{
  adoption_switch, probe_agent_alive, id_or_empty, live_id, live_alloc_id, as_status,
  binding_agent_status, adopt_age_limit, classify_adoption, adopt_path, adopt_existing,
}
use gc_runtime_nomad.Lifecycle.Running.{
  sync_prompted_marker, sync_prompted_from, is_owed, sync_city_checkout_marker, is_not_ready,
  running_probed, running_in, running_listed, running_from, op_is_running,
}
use gc_runtime_nomad.Lifecycle.Stop.Order.{SettledFirst, op_stop-SettledFirst}
use gc_runtime_nomad.Lifecycle.Stop.Removal.{op_stop-Gone}
use gc_runtime_nomad.Lifecycle.Dispatch.Order.{IntentFirst, dispatch-IntentFirst}
use gc_runtime_nomad.Lifecycle.Dispatch.Sent.{requests}
use gc_runtime_nomad.Lifecycle.Dispatch.Single.{
  IsFresh, IsAdopted, dispatch-requests, dispatch-IsFresh_or_IsAdopted,
}
use gc_runtime_nomad.Lifecycle.Adopt.Reuse.{IsReusable, adopt_existing-IsReusable}
use gc_runtime_nomad.Lifecycle.Adopt.Receipt.{ReceiptFirst, adopt_existing-ReceiptFirst}
use gc_runtime_nomad.Lifecycle.Running.Honest.{IsAnswered, op_is_running-IsAnswered}
use gc_runtime_nomad.Tests.Cluster.{
  listing, child, small, bound, launched, empty_world, bound_world, launched_world,
}

-- The world after stopping the bound session.
abbrev stopped_world : World ℕ
stopped_world = (op_stop small "s" bound_world).1

stop_runs : op_stop small "s" bound_world ≡ (ok tt, stopped_world)
unfolding op_stop ◌>>=◌ load disk decode lookup stop_from stop_child run_driving_verb current_alloc
    current_alloc_record resolve_from resolve pick_live found_live first_live is_terminal_status
    flush_marked egress_marked egress_attempts egress_alloc_files copy_allocs copy_files copy_body
    egress_next mark_egress save_outcome save insert deregister await_stopped remove erase
stop_runs = refl

op_stop-SettledFirst_example : SettledFirst (op_stop small "s" bound_world).1.trace
op_stop-SettledFirst_example = op_stop-SettledFirst small "s" bound_world tt

op_stop-Gone_example : lookup "s" stopped_world.bindings ≡ none
op_stop-Gone_example = op_stop-Gone small "s" bound_world stopped_world stop_runs

abbrev dispatched_world : World ℕ
dispatched_world = (dispatch small "s" "" empty_world).1

dispatch_runs : dispatch small "s" "" empty_world ≡ (ok tt, dispatched_world)
unfolding dispatch ◌>>=◌ load disk decode lookup live_child live_from recover_binding matching
    select live_recovered is dispatch_unless_live ensure_parent_registered is_current value_of
    dispatch_from dispatch_fresh intent_for save insert
dispatch_runs = refl

dispatch-IntentFirst_example : IntentFirst (dispatch small "s" "" empty_world).1.trace
dispatch-IntentFirst_example = dispatch-IntentFirst small "s" "" empty_world tt

dispatch-requests_example : requests dispatched_world.trace ≤ suc 0
dispatch-requests_example = dispatch-requests small "s" "" empty_world

dispatch-IsFresh_or_IsAdopted_example :
    IsFresh small "s" "" 0 dispatched_world ⊎ IsAdopted small "s" 0 dispatched_world
dispatch-IsFresh_or_IsAdopted_example =
    dispatch-IsFresh_or_IsAdopted small "s" "" empty_world dispatched_world dispatch_runs

abbrev adopted_world : World ℕ
adopted_world = (adopt_existing small "s" bound bound_world).1

adopt_runs : adopt_existing small "s" bound bound_world ≡ (ok true, adopted_world)
unfolding adopt_existing ◌>>=◌ classify_adoption adopt_age_limit binding_agent_status live_alloc_id
    live_id id_or_empty first_live is_terminal_status probe_agent_alive as_status adoption_switch
    adopt_path
adopt_runs = refl

adopt_existing-IsReusable_example : IsReusable small bound bound_world adopted_world
adopt_existing-IsReusable_example =
    adopt_existing-IsReusable small "s" bound bound_world adopted_world adopt_runs

adopt_existing-ReceiptFirst_example :
    ReceiptFirst "s" "c1" (adopt_existing small "s" launched launched_world).1.trace
adopt_existing-ReceiptFirst_example =
    adopt_existing-ReceiptFirst small "s" launched launched_world tt

abbrev polled_world : World ℕ
polled_world = (op_is_running small "s" launched_world).1

load_runs : load small "s" launched_world ≡ (ok (some launched), launched_world)
unfolding ◌>>=◌ load disk decode lookup
load_runs = refl

poll_runs : op_is_running small "s" launched_world ≡ (ok false, polled_world)
unfolding ◌>>=◌ load disk decode lookup op_is_running running_from running_listed running_in
    first_live is_terminal_status probe_agent_alive running_probed sync_prompted_marker
    sync_prompted_from is_owed sync_city_checkout_marker is_not_ready
poll_runs = refl

op_is_running-IsAnswered_example : IsAnswered small launched launched_world.outside
op_is_running-IsAnswered_example =
    op_is_running-IsAnswered small "s" launched launched_world launched_world polled_world load_runs
      refl poll_runs

abbrev recovered_world : World ℕ
recovered_world = (recover_binding listing "s" none empty_world).1

abbrev recovered : Binding
recovered = recovered_binding listing "s" child "n0" none

abbrev listed_world : World ℕ
listed_world = (op_list_running listing "" launched_world).1
