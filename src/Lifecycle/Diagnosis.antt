-- ===== src/Lifecycle/Diagnosis.antt =====
-- runtime/ops.go and runtime/artifact_fetch.go: why a box's task does not run, as an error's text
-- tells it (allocFailureDiagnosis, isOOMFailure, isImagePullFailure, isArtifactFetchFailure,
-- provisionFailureDetail), and runtime/image_env.go (imageRegistry). A text keeps its fixed words.
use gc_runtime_nomad.Base.{
  ℕ, Bool, not, ◌&&◌, ◌||◌, Option, none, some, List, [], ◌∷◌, String, lookup, str_eq, trim_space,
  cut, contains_any, contains_lower, lowers_to, if◌then◌else◌,
}
use gc_runtime_nomad.Lifecycle.Error.{Result, ok, err}
use gc_runtime_nomad.Lifecycle.Types.{Binding, AllocRecord, AllocTaskState}
use gc_runtime_nomad.Lifecycle.World.{Lifecycle, M, pure, attempt, call, ◌>>=◌}
use gc_runtime_nomad.Lifecycle.Sidecar.{load}
use gc_runtime_nomad.Lifecycle.Alloc.{exec_task_name}

unfoldable pub is_oom_failure : String → Bool
is_oom_failure event =
    contains_lower event "oom killed"
    || contains_lower event "oom-killed"
    || contains_lower event "oomkilled"
    || contains_lower event "out of memory"

unfoldable pub is_image_pull_failure : String → Bool
is_image_pull_failure event =
    contains_lower event "failed to pull"
    || contains_lower event "pull access denied"
    || contains_lower event "repository does not exist"
    || contains_lower event "manifest unknown"
    || contains_lower event "no such image"
    || contains_lower event "image not found"

unfoldable pub is_checksum_mismatch : String → Bool
is_checksum_mismatch event =
    contains_lower event "checksums did not match" || contains_lower event "checksum mismatch"

unfoldable pub is_artifact_fetch_failure : String → Bool
unfolding is_checksum_mismatch
is_artifact_fetch_failure event =
    contains_lower event "failed artifact download"
    || contains_lower event "failed to download artifact"
    || contains_lower event "failed to parse artifact"
    || is_checksum_mismatch event

-- The registry's host, or the empty text.
unfoldable pub registry_of : String × Option String → String
registry_of (first, none) = ""
registry_of (first, some rest) =
    if str_eq first "localhost" || contains_any first ".:" then first else ""

unfoldable pub image_registry : String → String
unfolding registry_of
image_registry ref = registry_of (cut b'/' (trim_space ref))

unfoldable pub image_is_registryless : String → Bool
unfolding image_registry
image_is_registryless ref = not (str_eq (trim_space ref) "") && str_eq (image_registry ref) ""

-- The last allocation that failed or was lost, or the last one.
unfoldable pub is_lost : AllocRecord → Bool
is_lost a =
    lowers_to (trim_space a.client_status) "failed" || lowers_to (trim_space a.client_status) "lost"

unfoldable pub last_of : AllocRecord → List AllocRecord → AllocRecord
last_of a [] = a
last_of a (b ∷ allocs) = last_of b allocs

unfoldable pub last_lost : AllocRecord → List AllocRecord → AllocRecord
unfolding is_lost
last_lost pick [] = pick
last_lost pick (a ∷ allocs) = last_lost (if is_lost a then a else pick) allocs

unfoldable pub event_of : AllocTaskState → String
event_of state =
    let event = trim_space state.failure_event in
    if str_eq event "" then trim_space state.last_event else event

unfoldable pub pull_text : String → String
pull_text image =
    if str_eq (trim_space image) ""
    then "the agent image is not on this node"
    else if image_is_registryless (trim_space image)
    then "the image is not on this node AND NAMES NO REGISTRY"
    else "the image is not on this node"

unfoldable pub event_text : String → String → String
unfolding is_oom_failure is_image_pull_failure is_artifact_fetch_failure pull_text
event_text image event =
    if str_eq event ""
    then ""
    else if is_artifact_fetch_failure event
    then if is_checksum_mismatch event
      then "the task never ran: the bytes ARRIVED and failed verification"
      else "the task never ran: Nomad could not stage an artifact"
    else if is_image_pull_failure event
    then pull_text image
    else if is_oom_failure event
    then "the task was OOM-killed"
    else "the task never started"

unfoldable pub state_text : String → Option AllocTaskState → String
unfolding event_of event_text
state_text image none = ""
state_text image (some state) = event_text image (event_of state)

unfoldable pub alloc_failure_diagnosis : String → List AllocRecord → String → String
unfolding last_of last_lost state_text lookup
alloc_failure_diagnosis image [] task = ""
alloc_failure_diagnosis image (a ∷ allocs) task =
    let pick = last_lost (last_of a allocs) (a ∷ allocs) in
    state_text image (lookup task pick.task_states)

module _ {N : Type 0} (l : Lifecycle N) where
  unfoldable pub detail_listed : Result (List AllocRecord × ℕ) → String
  detail_listed (err e) = "could not read the allocations of the child to diagnose this"
  detail_listed (ok (allocs, _)) =
      let d = alloc_failure_diagnosis l.agent_image allocs exec_task_name in
      if str_eq d "" then "no allocation of the child reports why the task is not running" else d

  unfoldable pub detail_of : Result (Option Binding) → M N String
  detail_of (err e) = pure "could not read the binding to diagnose this"
  detail_of (ok none) = pure ""
  detail_of (ok (some b)) = if str_eq (trim_space b.child_job_id) "" then pure "" else do
    listed ← attempt (call (l.client.list_allocs_for_job b.child_job_id 0 0))
    pure (detail_listed listed)

  unfoldable pub provision_failure_detail : String → M N String
  provision_failure_detail session = attempt (load l session) >>= detail_of
