-- ===== src/Lifecycle/Stop.antt =====
-- runtime/ops.go: stopping a session (egressAllocFiles, flushLogShipper, opStop).
pub mod Laws
pub mod Order
pub mod Removal
pub mod Fuel
use Prim.Native.Nat.{min}
use gc_runtime_nomad.Base.{
  ℕ, zero, suc, ◌+◌, ◌-◌, Bool, true, false, not, ◌&&◌, ◌||◌, Option, none, some, List, [], ◌∷◌,
  String, ◌==◌, leb, ltb, str_eq, if◌then◌else◌,
}
use gc_runtime_nomad.Lifecycle.Error.{Err, message, wrap, is, alloc_file_gone, Result, ok, err}
use gc_runtime_nomad.Lifecycle.Types.{Binding, AllocRecord}
use gc_runtime_nomad.Lifecycle.World.{
  write_file, rename_file, make_dir, Lifecycle, copied, deregister_sent, World, M, pure, raise,
  attempt, annotate, lift, call, observe, emit, ◌>>=◌, ◌>>◌,
}
use gc_runtime_nomad.Lifecycle.Sidecar.{disk, load, save, remove}
use gc_runtime_nomad.Lifecycle.Alloc.{
  exec_task_name, tmux_session_name, current_alloc, run_driving_verb,
}

-- egressFiles: the path in the allocation and the name in the sink.
abbrev pub egress_files : List (String × String)
egress_files =
    ("alloc/logs/transcript.log", "transcript.log")
    ∷ ("alloc/data/evidence.json", "evidence.json")
    ∷ ("alloc/data/agent.exit", "agent.exit")
    ∷ ("alloc/data/agent.stdout", "agent.stdout")
    ∷ ("alloc/data/agent.stderr", "agent.stderr")
    ∷ []

-- logShipperFlushTimeout, logShipperPollInterval and blockingWait, in nanoseconds.
abbrev pub flush_timeout : ℕ
flush_timeout = 15_000_000_000

abbrev pub flush_poll : ℕ
flush_poll = 25_000_000

abbrev pub flush_rounds : ℕ
flush_rounds = 601

abbrev pub blocking_wait : ℕ
blocking_wait = 5_000_000_000

abbrev pub log_shipper_task_name : String
log_shipper_task_name = "log-shipper"

module _ {N : Type 0} (l : Lifecycle N) where
  -- A file that is gone is skipped; any other failure ends the egress.
  unfoldable pub copy_body : String → String → String → Result String → M N (Unit {0})
  copy_body session alloc name (ok body) = do
    disk l (write_file name) "egress: writing"
    disk l (rename_file name) "egress: committing"
    emit (copied session alloc name body)
  copy_body session alloc name (err e) =
      if is alloc_file_gone e then pure tt else raise (wrap "egress: reading" e)

  unfoldable pub copy_files : String → String → List (String × String) → M N (Unit {0})
  copy_files session alloc [] = pure tt
  copy_files session alloc ((path, name) ∷ files) = do
    body ← attempt (call (l.client.read_alloc_file alloc path))
    copy_body session alloc name body
    copy_files session alloc files

  unfoldable pub copy_allocs : String → List AllocRecord → M N (Unit {0})
  copy_allocs session [] = pure tt
  copy_allocs session (a ∷ allocs) = do
    copy_files session a.id egress_files
    copy_allocs session allocs

  unfoldable pub egress_alloc_files : String → String → M N (Unit {0})
  egress_alloc_files session child = if str_eq l.egress_dir "" then pure tt else do
    (allocs, _) ←
        annotate "egress: listing allocations" (call (l.client.list_allocs_for_job child 0 0))
    disk l make_dir "egress: creating sink directory"
    copy_allocs session allocs

  unfoldable pub egress_next : M N Bool → Result (Unit {0}) → M N Bool
  egress_next next (ok _) = pure true
  egress_next next (err _) = next

  -- The loop over `egressMaxAttempts`: whether one of the attempts left succeeded.
  unfoldable pub egress_attempts : ℕ → String → String → M N Bool
  egress_attempts zero session child = pure false
  egress_attempts (suc left) session child = do
    r ← attempt (egress_alloc_files session child)
    egress_next (egress_attempts left session child) r

  -- After a probe: done, or wait for the next one unless the context is over.
  unfoldable pub flush_again : ℕ → M N (Unit {0}) → ℕ → M N (Unit {0})
  flush_again deadline next exit_code = if exit_code == 0 then pure tt else do
    now ← observe l.clock
    if leb deadline now
        then raise (message "flushing log shipper: completion timeout")
        else do observe (λ n. (tt, l.sleep (min flush_poll (deadline - now)) n)); next

  -- The wait of flushLogShipper, until the deadline of its context; the fuel bounds its rounds.
  unfoldable pub await_flush : ℕ → ℕ → String → M N (Unit {0})
  await_flush zero deadline alloc = raise (message "out of fuel")
  await_flush (suc fuel) deadline alloc = do
    (exit_code, _) ← annotate "flushing log shipper: waiting for completion" (
        call (
          l.client.exec_alloc alloc exec_task_name
            ("/bin/sh" ∷ "-c" ∷ l.log_shipper_flush_probe ∷ [])))
    flush_again deadline (await_flush fuel deadline alloc) exit_code

  -- Each round but the last sleeps for 25 of the 15000 milliseconds.
  unfoldable pub flush_log_shipper : String → M N (Unit {0})
  flush_log_shipper alloc = if not l.log_shipper_enabled then pure tt else do
    (exit_code, _) ← annotate "flushing log shipper" (
        call (
          l.client.exec_alloc alloc log_shipper_task_name
            ("/bin/sh" ∷ "-c" ∷ l.log_shipper_flush_command ∷ [])))
    if not (exit_code == 0)
        then raise (message "flushing log shipper: request exited")
        else do now ← observe l.clock; await_flush flush_rounds (now + flush_timeout) alloc

  unfoldable pub mark_flush : Binding → Result (Unit {0}) → Binding
  mark_flush b (ok _) = b
  mark_flush b (err _) = record b { evidence_lost = true }

  unfoldable pub mark_egress : Binding → Bool → Binding
  mark_egress b true = record b { egress_complete = true }
  mark_egress b false = record b { evidence_lost = true }

  -- The log shipper's part of opStop: a flush that fails loses the evidence.
  unfoldable pub flush_marked : String → Binding → M N Binding
  flush_marked session b = if not (l.log_shipper_enabled && not b.evidence_lost) then pure b else do
    flushed ← attempt (current_alloc l session >>= flush_log_shipper)
    pure (mark_flush b flushed)

  -- The egress of opStop: three attempts, and the marker of their outcome.
  unfoldable pub egress_marked : Bool → String → Binding → M N Binding
  egress_marked needed session b =
      if not needed
      then pure b
      else do done ← egress_attempts 3 session b.child_job_id; pure (mark_egress b done)

  unfoldable pub save_outcome : Binding → M N (Unit {0})
  save_outcome b = if b.egress_complete || b.evidence_lost then save l b else pure tt

  unfoldable pub deregister : String → M N ℕ
  deregister child = do emit (deregister_sent child); call (l.client.deregister_job child false)

  -- The blocking read after the deregistration, whose answer is dropped.
  unfoldable pub await_stopped : String → ℕ → M N (Unit {0})
  await_stopped child idx =
      if idx == 0
      then pure tt
      else do attempt (call (l.client.list_allocs_for_job child (idx - 1) blocking_wait)); pure tt

  unfoldable pub stop_child : String → Binding → M N (Unit {0})
  stop_child session b = do
    attempt (
        run_driving_verb l session "stop-kill-session"
          ("tmux" ∷ "kill-session" ∷ "-t" ∷ tmux_session_name ∷ []))
    flushed ← flush_marked session b
    marked ← egress_marked (not b.egress_complete && not b.evidence_lost) session flushed
    save_outcome marked
    idx ← deregister marked.child_job_id
    await_stopped marked.child_job_id idx
    remove l session

  unfoldable pub stop_from : String → Option Binding → M N (Unit {0})
  stop_from session none = pure tt
  stop_from session (some b) =
      if str_eq b.child_job_id "" then remove l session else stop_child session b

  unfoldable pub op_stop : String → M N (Unit {0})
  op_stop session = load l session >>= stop_from session
