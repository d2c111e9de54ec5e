-- ===== src/Lifecycle/Alloc.antt =====
-- runtime/ops.go: the session's current allocation, the commands driven in it, and the wait for
-- its task (currentAllocRecord, allocExecReady, awaitExecAllocReadyWithin, the tmux verbs).
pub mod Laws
pub mod Retry
use gc_runtime_nomad.Base.{
  ℕ, zero, suc, ◌+◌, Bool, true, false, not, ◌&&◌, ◌||◌, Option, none, some, List, [], ◌∷◌, ◌++◌,
  String, Dict, lookup, ◌==◌, ltb, leb, str_eq, if◌then◌else◌, contains,
}
use gc_runtime_nomad.Lifecycle.Error.{
  Err, sentinel, message, wrap, join, is, error_text, binding_no_match, binding_terminal,
  session_not_found, alloc_not_ready, eof, unexpected_eof, conn_reset, broken_pipe, Result, ok, err,
}
use gc_runtime_nomad.Lifecycle.Types.{Binding, AllocRecord}
use gc_runtime_nomad.Lifecycle.World.{
  Lifecycle, World, M, pure, raise, attempt, annotate, lift, call, observe, ◌>>=◌, ◌>>◌,
}
use gc_runtime_nomad.Lifecycle.Sidecar.{load}
use gc_runtime_nomad.Lifecycle.Recover.{first_live, recover_binding}

abbrev pub exec_task_name : String
exec_task_name = "agent"

abbrev pub tmux_session_name : String
tmux_session_name = "main"

-- allocReadyRetryable
unfoldable pub alloc_ready_retryable : Err → Bool
unfolding is error_text contains
alloc_ready_retryable e =
    is alloc_not_ready e
    || is eof e
    || is unexpected_eof e
    || is conn_reset e
    || is broken_pipe e
    || contains (error_text e) "connection reset by peer"
    || contains (error_text e) "broken pipe"

-- allocExecReady
unfoldable pub alloc_exec_ready : AllocRecord → Bool
unfolding lookup
alloc_exec_ready rec = elim (lookup exec_task_name rec.task_states) [
  | some state ↦ str_eq state.state "running"
  | none ↦ str_eq rec.client_status "running"
]

module _ {N : Type 0} (l : Lifecycle N) where
  unfoldable pub missing_box : Result Binding → M N Binding
  missing_box (ok b) = pure b
  missing_box (err e) =
      if is binding_no_match e || is binding_terminal e
      then raise (wrap "session has no provisioned box" (sentinel session_not_found))
      else raise e

  -- The second look, under the session's lock.
  unfoldable pub recover_locked : String → Option Binding → M N Binding
  recover_locked session none = attempt (recover_binding l session none) >>= missing_box
  recover_locked session (some b) =
      if not (str_eq b.child_job_id "")
      then pure b
      else (attempt (recover_binding l session (some b)) >>= missing_box)

  -- `defer unlock()`
  unfoldable pub with_lock : {A : Type 0} → String → M N A → M N A
  with_lock session m = do
    call (l.lock_session session)
    r ← attempt m
    observe (λ n. (tt, l.unlock_session session n))
    lift r

  unfoldable pub found_live : Option AllocRecord → M N AllocRecord
  found_live (some a) = pure a
  found_live none = raise (wrap "session has no non-terminal alloc" (sentinel session_not_found))

  unfoldable pub pick_live : List AllocRecord → M N AllocRecord
  pick_live [] =
      raise (
        join "session has no allocation yet" (sentinel session_not_found)
          (sentinel alloc_not_ready))
  pick_live (a ∷ allocs) = found_live (first_live (a ∷ allocs))

  unfoldable pub resolve : Binding → M N AllocRecord
  resolve b = do
    (allocs, _) ←
        annotate "resolving alloc" (call (l.client.list_allocs_for_job b.child_job_id 0 0))
    pick_live allocs

  -- The lock is held until the allocation is resolved.
  unfoldable pub resolve_locked : String → M N AllocRecord
  resolve_locked session =
      with_lock session do again ← load l session; b ← recover_locked session again; resolve b

  unfoldable pub resolve_from : String → Option Binding → M N AllocRecord
  resolve_from session none = resolve_locked session
  resolve_from session (some b) =
      if str_eq b.child_job_id "" then resolve_locked session else resolve b

  unfoldable pub current_alloc_record : String → M N AllocRecord
  current_alloc_record session = load l session >>= resolve_from session

  unfoldable pub current_alloc : String → M N String
  current_alloc session = do rec ← current_alloc_record session; pure rec.id

  -- runDrivingVerb
  unfoldable pub run_driving_verb : String → String → List String → M N (Unit {0})
  run_driving_verb session verb command = do
    alloc ← annotate verb (current_alloc session)
    (exit_code, out) ← annotate verb (call (l.client.exec_alloc alloc exec_task_name command))
    if exit_code == 0 then pure tt else raise (message "tmux command exited")

  unfoldable pub retryable : {A : Type 0} → Result A → Bool
  retryable (ok _) = false
  retryable (err e) = alloc_ready_retryable e

  -- retryAllocExecReady, with the further attempts that are left and no cancelled context. What
  -- the operation leaves in a variable is its answer.
  unfoldable pub retry : {A : Type 0} → ℕ → M N A → M N A
  retry zero operation = operation
  retry (suc left) operation = do
    r ← attempt operation
    if not (retryable r)
        then lift r
        else do observe (λ n. (tt, l.sleep 250000000 n)); retry left operation

  -- allocExecReadyAttempts is 20.
  unfoldable pub retry_alloc_exec_ready : {A : Type 0} → M N A → M N A
  retry_alloc_exec_ready operation = retry 19 operation

  -- One look of the wait: the allocation if its task runs, none to look again.
  unfoldable pub look : Result AllocRecord → M N (Option String)
  look (ok rec) = pure (if alloc_exec_ready rec then some rec.id else none)
  look (err e) = if is alloc_not_ready e then pure none else raise e

  -- After a look: done, or wait for the next one unless the deadline has passed.
  unfoldable pub look_again : ℕ → ℕ → M N String → Option String → M N String
  look_again deadline interval next (some alloc) = pure alloc
  look_again deadline interval next none = do
    now ← observe l.clock
    if leb deadline now
        then raise (message "task was not running within the timeout")
        else do observe (λ n. (tt, l.sleep interval n)); next

  -- awaitExecAllocReadyWithin, with no cancelled context; the fuel bounds the looks.
  unfoldable pub await_loop : ℕ → ℕ → ℕ → String → M N String
  await_loop zero deadline interval session = raise (message "out of fuel")
  await_loop (suc fuel) deadline interval session = do
    rec ← attempt (current_alloc_record session)
    seen ← look rec
    look_again deadline interval (await_loop fuel deadline interval session) seen

  unfoldable pub await_exec_alloc_ready_within : ℕ → ℕ → ℕ → String → M N String
  await_exec_alloc_ready_within fuel timeout interval session = do
    now ← observe l.clock
    await_loop fuel (now + timeout) interval session

  -- allocTaskRunningTimeout and allocTaskRunningPoll; 361 looks span the 180 seconds.
  unfoldable pub await_exec_alloc_ready : String → M N String
  await_exec_alloc_ready session =
      await_exec_alloc_ready_within 361 180_000_000_000 500_000_000 session
