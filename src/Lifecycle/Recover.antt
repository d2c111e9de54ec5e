-- ===== src/Lifecycle/Recover.antt =====
-- runtime/ops.go: finding a session's child job again, from its binding or from the children that
-- the cluster lists (recoverBinding, findOrphanByNonce, liveChild).
pub mod Laws
pub mod Unique
use gc_runtime_nomad.Base.{
  value_of, ℕ, Bool, true, false, not, ◌&&◌, ◌||◌, Option, none, some, List, [], ◌∷◌, String, Dict,
  lookup, ◌==◌, str_eq, trim_space, if◌then◌else◌,
}
use gc_runtime_nomad.Lifecycle.Error.{
  Err, sentinel, message, wrap, is, binding_no_match, binding_ambiguous, binding_terminal, Result,
  ok, err,
}
use gc_runtime_nomad.Lifecycle.Types.{
  Binding, zero_binding, AllocRecord, ChildJob, is_terminal_status,
}
use gc_runtime_nomad.Lifecycle.World.{
  Lifecycle, World, M, pure, raise, attempt, annotate, lift, call, ◌>>=◌, ◌>>◌,
}
use gc_runtime_nomad.Lifecycle.Sidecar.{load, save}

-- The first record whose status is not terminal.
unfoldable pub first_live : List AllocRecord → Option AllocRecord
unfolding is_terminal_status
first_live [] = none
first_live (a ∷ allocs) = if is_terminal_status a.client_status then first_live allocs else some a

module _ {N : Type 0} (l : Lifecycle N) where
  unfoldable pub belongs : String → ChildJob → Bool
  belongs session child =
      str_eq child.namespace l.client.namespace && str_eq (value_of "gc_session" child.meta) session

  -- The children of the session whose `Terminal` is as asked, in the order listed.
  unfoldable pub matching : Bool → String → List ChildJob → List ChildJob
  matching terminal session [] = []
  matching terminal session (c ∷ children) =
      if belongs session c && (if terminal then c.terminal else not c.terminal)
      then c ∷ matching terminal session children
      else matching terminal session children

  -- The switch on the number of matches.
  unfoldable pub select : List ChildJob → List ChildJob → Result ChildJob
  select [] [] = err (wrap "no child of the session" (sentinel binding_no_match))
  select [] (_ ∷ _) = err (wrap "the session's child" (sentinel binding_terminal))
  select (c ∷ []) _ = ok c
  select (_ ∷ _ ∷ _) _ = err (wrap "the session's children" (sentinel binding_ambiguous))

  -- parseCreatedAtMeta: what does not parse is the zero time.
  unfoldable pub parse_created_at_meta : Dict String → ℕ
  parse_created_at_meta meta =
      let raw = trim_space (value_of "gc_created_at" meta) in
      if str_eq raw "" then 0 else elim (l.parse_time raw) [ none ↦ 0 | some t ↦ t ]

  unfoldable pub recovered_binding : String → ChildJob → String → Option Binding → Binding
  recovered_binding session child nonce none = record zero_binding {
    session_name = session;
    child_job_id = child.id;
    namespace = child.namespace;
    nonce = nonce;
    created_at = parse_created_at_meta child.meta;
  }
  recovered_binding session child nonce (some base) = record zero_binding {
    session_name = session;
    child_job_id = child.id;
    namespace = child.namespace;
    nonce = nonce;
    created_at = if base.created_at == 0 then parse_created_at_meta child.meta else base.created_at;
    egress_complete = base.egress_complete;
    evidence_lost = base.evidence_lost;
    stage_pending = base.stage_pending;
    launched = base.launched;
    agent_pid = base.agent_pid;
    work_dir = base.work_dir;
    prompted_at = base.prompted_at;
    prompt_status = base.prompt_status;
    prompt_pane_tail = base.prompt_pane_tail;
    prompt_pending = base.prompt_pending;
  }

  unfoldable pub recover_binding : String → Option Binding → M N Binding
  recover_binding session prior = do
    children ←
        annotate "recovering sidecar binding" (call (l.client.list_child_jobs l.parent_job_id))
    child ← lift (select (matching false session children) (matching true session children))
    let nonce = trim_space (value_of "gc_nonce" child.meta)
    let recovered = recovered_binding session child nonce prior
    if str_eq nonce ""
        then raise (message "sidecar binding recovery: child has no gc_nonce")
        else do annotate "repairing sidecar binding" (save l recovered); pure recovered

  unfoldable pub find_by_nonce : String → String → List ChildJob → Option String
  find_by_nonce session nonce [] = none
  find_by_nonce session nonce (c ∷ children) =
      if c.terminal
        || not (str_eq (value_of "gc_session" c.meta) session)
        || not (str_eq (value_of "gc_nonce" c.meta) nonce)
      then find_by_nonce session nonce children
      else some c.id

  unfoldable pub find_orphan_by_nonce : String → String → M N (Option String)
  find_orphan_by_nonce session nonce = do
    children ← call (l.client.list_child_jobs l.parent_job_id)
    pure (find_by_nonce session nonce children)

  -- liveChild's end: the binding's child counts if one of its allocations is not terminal.
  unfoldable pub live_pick : Binding → Bool → Option AllocRecord → M N (Option Binding)
  live_pick b recovered (some a) = pure (some b)
  live_pick b recovered none =
      if recovered
      then raise (message "recovered child has no non-terminal allocation")
      else pure none

  unfoldable pub verify_live : Binding → Bool → Result (List AllocRecord × ℕ) → M N (Option Binding)
  verify_live b recovered (err e) =
      if recovered then raise (wrap "checking recovered child" e) else pure none
  verify_live b recovered (ok (allocs, _)) = live_pick b recovered (first_live allocs)

  unfoldable pub live_binding : Binding → Bool → M N (Option Binding)
  live_binding b recovered = if str_eq b.child_job_id "" then pure none else do
    listed ← attempt (call (l.client.list_allocs_for_job b.child_job_id 0 0))
    verify_live b recovered listed

  unfoldable pub live_recovered : Result Binding → M N (Option Binding)
  live_recovered (ok b) = live_binding b true
  live_recovered (err e) =
      if is binding_no_match e || is binding_terminal e then pure none else raise e

  unfoldable pub live_from : String → Option Binding → M N (Option Binding)
  live_from session none = do r ← attempt (recover_binding session none); live_recovered r
  live_from session (some b) =
      if not (str_eq b.child_job_id "")
      then live_binding b false
      else if not (str_eq b.nonce "")
      then pure none
      else (attempt (recover_binding session (some b)) >>= live_recovered)

  -- The session's binding if its child still has a live allocation.
  unfoldable pub live_child : String → M N (Option Binding)
  live_child session = load l session >>= live_from session
