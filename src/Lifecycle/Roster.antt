-- ===== src/Lifecycle/Roster.antt =====
-- runtime/ops.go: the sessions that run (childHasLiveAlloc, opListRunning).
pub mod Laws
pub mod Sound
pub mod Complete
use gc_runtime_nomad.Base.{
  value_of, Bool, true, false, not, ◌&&◌, ◌||◌, Option, none, some, List, [], ◌∷◌, String, str_eq,
  starts_with, trim_space, lowers_to, sort, if◌then◌else◌,
}
use gc_runtime_nomad.Lifecycle.Error.{Result, ok, err}
use gc_runtime_nomad.Lifecycle.Types.{Binding, AllocRecord, ChildJob}
use gc_runtime_nomad.Lifecycle.World.{Lifecycle, M, pure, attempt, annotate, call, ◌>>=◌}
use gc_runtime_nomad.Lifecycle.Sidecar.{list}

-- The case of childHasLiveAlloc's switch that goes on to the next allocation.
unfoldable pub is_over : AllocRecord → Bool
unfolding trim_space lowers_to
is_over a =
    let status = trim_space a.client_status in
    lowers_to status "complete" || lowers_to status "failed" || lowers_to status "lost"

unfoldable pub any_live : List AllocRecord → Bool
any_live [] = false
any_live (a ∷ allocs) = if is_over a then any_live allocs else true

-- `launched[child]`, of the map that the bindings fill.
unfoldable pub is_launched : String → List Binding → Bool
is_launched child [] = false
is_launched child (b ∷ bindings) =
    (not (str_eq b.child_job_id "") && b.launched && str_eq b.child_job_id child)
    || is_launched child bindings

-- The child's session, unless one of the first two guards of the loop skips the child.
unfoldable pub candidate : String → List Binding → ChildJob → Option String
unfolding value_of
candidate prefix bindings c =
    let name = value_of "gc_session" c.meta in
    if c.terminal || not (is_launched c.id bindings)
    then none
    else if str_eq name "" || (not (str_eq prefix "") && not (starts_with name prefix))
    then none
    else some name

module _ {N : Type 0} (l : Lifecycle N) where
  unfoldable pub child_has_live_alloc : String → M N Bool
  child_has_live_alloc child = do
    (allocs, _) ← call (l.client.list_allocs_for_job child 0 0)
    pure (any_live allocs)

  -- An allocation list that cannot be read keeps the child.
  unfoldable pub keeps_child : Result Bool → Bool
  keeps_child (ok live) = live
  keeps_child (err e) = true

  unfoldable pub listed : Option String → String → M N (List String) → M N (List String)
  listed none child next = next
  listed (some name) child next = do
    live ← attempt (child_has_live_alloc child)
    names ← next
    pure (if keeps_child live then name ∷ names else names)

  unfoldable pub running_names : String → List Binding → List ChildJob → M N (List String)
  running_names prefix bindings [] = pure []
  running_names prefix bindings (c ∷ children) =
      listed (candidate prefix bindings c) c.id (running_names prefix bindings children)

  unfoldable pub op_list_running : String → M N (List String)
  op_list_running prefix = do
    children ←
        annotate "list-running: listing children" (call (l.client.list_child_jobs l.parent_job_id))
    bindings ← list l
    names ← running_names prefix bindings children
    pure (sort names)
