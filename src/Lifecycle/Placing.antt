-- ===== src/Lifecycle/Placing.antt =====
-- runtime/ops.go: the look for the placement of a dispatched child (confirmDispatchPlaced).
pub mod Laws
pub mod Fuel
use gc_runtime_nomad.Base.{
  ℕ, zero, suc, ◌+◌, Bool, true, false, not, ◌&&◌, ◌||◌, Option, none, some, List, [], ◌∷◌, String,
  Dict, value_of, ◌==◌, leb, ltb, str_eq, itoa, trim_space, concat, if◌then◌else◌,
}
use gc_runtime_nomad.Lifecycle.Error.{Err, message, wrap, Result, ok, err}
use gc_runtime_nomad.Lifecycle.Types.{Binding, zero_binding, StageConfig, AllocRecord}
use gc_runtime_nomad.Lifecycle.World.{
  Lifecycle, PlacementFailure, World, M, pure, raise, attempt, annotate, lift, call, observe, ◌>>=◌,
  ◌>>◌,
}
use gc_runtime_nomad.Lifecycle.Excerpt.{exec_excerpt}
use gc_runtime_nomad.Lifecycle.Sidecar.{load}
use gc_runtime_nomad.Lifecycle.Recover.{live_child}
use gc_runtime_nomad.Lifecycle.Alloc.{
  exec_task_name, with_lock, current_alloc, retry_alloc_exec_ready, await_exec_alloc_ready,
}
use gc_runtime_nomad.Lifecycle.Roster.{any_live}
use gc_runtime_nomad.Lifecycle.Dispatch.{dispatch}
use gc_runtime_nomad.Lifecycle.Launch.{confirm_launched}
use gc_runtime_nomad.Lifecycle.Adopt.{adopt_existing}
use gc_runtime_nomad.Lifecycle.Stage.{stage_tracked}
use gc_runtime_nomad.Lifecycle.Prime.{startup_prime_detached}
use gc_runtime_nomad.Staging.Env.{box_filesystem_env_input}
use gc_runtime_nomad.Staging.LaunchCommand.{
  build_launch_command_for_pane, build_launch_command_for_tmux,
}
use gc_runtime_nomad.Wire.Texts.{separable_transport_launch}

-- The status of the last of the allocations, or what it was before them.
unfoldable pub last_status : String → List AllocRecord → String
last_status status [] = status
last_status status (a ∷ allocs) = last_status a.client_status allocs

-- emptyNodePool
unfoldable pub empty_node_pool : PlacementFailure → Bool
empty_node_pool p = p.found && p.nodes_in_pool == 0 && p.nodes_evaluated == 0

abbrev pub alloc_placement_timeout : ℕ
alloc_placement_timeout = 30_000_000_000

abbrev pub alloc_placement_poll : ℕ
alloc_placement_poll = 1_000_000_000

module _ {N : Type 0} (l : Lifecycle N) where
  -- No allocation was placed: one that ended at once, or none, as the scheduler tells it.
  unfoldable pub not_placed : Binding → String → M N (Unit {0})
  not_placed b status =
      if not (str_eq status "")
      then raise (message "child placed an allocation that ended without starting")
      else do
        failure ← observe (l.client.job_placement_failure b.child_job_id)
        raise (
            message (
              if empty_node_pool failure
              then "NO allocation was placed: the scheduler saw no nodes at all"
              else "NO allocation was placed: no client satisfied the job's constraints"))

  unfoldable pub placed_loop : ℕ → ℕ → Binding → String → M N (Unit {0})
  placed_loop zero deadline b status = raise (message "out of fuel")
  placed_loop (suc fuel) deadline b status = do
    (allocs, _) ←
        annotate "reading allocations" (call (l.client.list_allocs_for_job b.child_job_id 0 0))
    if any_live allocs then pure tt else do
      now ← observe l.clock
      if ltb deadline now then not_placed b (last_status status allocs) else do
        observe (λ n. (tt, l.sleep alloc_placement_poll n))
        placed_loop fuel deadline b (last_status status allocs)

  unfoldable pub placed_from : ℕ → Option Binding → M N (Unit {0})
  placed_from fuel none = raise (message "dispatch accepted but no child job was recorded")
  placed_from fuel (some b) =
      if str_eq b.child_job_id ""
      then raise (message "dispatch accepted but no child job was recorded")
      else do now ← observe l.clock; placed_loop fuel (now + alloc_placement_timeout) b ""

  -- 32 looks span the 30 seconds.
  unfoldable pub confirm_dispatch_placed : String → M N (Unit {0})
  confirm_dispatch_placed session =
      annotate "confirming the dispatch was placed" (load l session) >>= placed_from 32
