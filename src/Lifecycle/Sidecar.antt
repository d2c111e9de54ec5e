-- ===== src/Lifecycle/Sidecar.antt =====
-- runtime/sidecar.go: one JSON file per session. A file is keyed by its session's name, which its
-- path encodes one to one; the temporary file of a save is not modelled, since no load or list
-- reads it.
pub mod Laws
pub mod RoundTrip
pub mod Failures
pub mod Store
use gc_runtime_nomad.Base.{
  ℕ, Bool, true, false, Option, none, some, List, [], ◌∷◌, String, Dict, lookup, insert, erase,
  if◌then◌else◌,
}
use gc_runtime_nomad.Lifecycle.Error.{Err, message, wrap, Result, ok, err}
use gc_runtime_nomad.Lifecycle.Types.{Binding, Tombstone}
use gc_runtime_nomad.Lifecycle.World.{
  DiskOp, read_file, write_file, rename_file, remove_file, read_dir, make_dir, Lifecycle, FileBody,
  json, garbage, Event, saved, removed, tombstoned, World, M, pure, raise, observe, gets, emit,
  put_bindings, ◌>>=◌, ◌>>◌,
}

module _ {N : Type 0} where
  -- What a read of the file answers.
  unfoldable pub decode : Option FileBody → M N (Option Binding)
  decode none = pure none
  decode (some (json b)) = pure (some b)
  decode (some garbage) = raise (wrap "decoding sidecar binding" (message "invalid JSON"))

  -- A file operation that may fail, and what follows it.
  unfoldable pub disk : Lifecycle N → DiskOp → String → M N (Unit {0})
  disk l op what = do
    failed ← observe (l.disk_fails op)
    if failed then raise (wrap what (message "input/output error")) else pure tt

  unfoldable pub load : Lifecycle N → String → M N (Option Binding)
  load l session = do
    disk l (read_file session) "reading sidecar binding"
    files ← gets (λ w. w.bindings)
    decode (lookup session files)

  unfoldable pub save : Lifecycle N → Binding → M N (Unit {0})
  save l b = do
    disk l (write_file b.session_name) "writing sidecar binding"
    disk l (rename_file b.session_name) "committing sidecar binding"
    files ← gets (λ w. w.bindings)
    put_bindings (insert b.session_name (json b) files)
    emit (saved b)

  -- A file that is not there is no error.
  unfoldable pub remove : Lifecycle N → String → M N (Unit {0})
  remove l session = do
    disk l (remove_file session) "removing sidecar binding"
    files ← gets (λ w. w.bindings)
    put_bindings (erase session files)
    emit (removed session)

  -- Each file is read in turn; one that vanished since `ReadDir` is not in the directory.
  unfoldable pub read_all : Lifecycle N → Dict FileBody → M N (List Binding)
  read_all l [] = pure []
  read_all l ((session, json b) ∷ files) = do
    disk l (read_file session) "reading sidecar binding"
    rest ← read_all l files
    pure (b ∷ rest)
  read_all l ((session, garbage) ∷ files) = do
    disk l (read_file session) "reading sidecar binding"
    raise (wrap "decoding sidecar binding" (message "invalid JSON"))

  unfoldable pub list : Lifecycle N → M N (List Binding)
  list l = do
    disk l read_dir "listing sidecar directory"
    files ← gets (λ w. w.bindings)
    read_all l files

  unfoldable pub tombstone : Lifecycle N → Tombstone → M N (Unit {0})
  tombstone l t = do
    disk l make_dir "creating tombstone directory"
    disk l (write_file t.session_name) "writing tombstone"
    disk l (rename_file t.session_name) "committing tombstone"
    emit (tombstoned t)
