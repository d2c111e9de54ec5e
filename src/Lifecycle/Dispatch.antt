-- ===== src/Lifecycle/Dispatch.antt =====
-- runtime/ops.go: registering the parent job and dispatching a child (ensureParentRegistered,
-- dispatch). The parent's jobspec counts by its hash alone.
pub mod Laws
pub mod Order
pub mod Sent
pub mod Single
use gc_runtime_nomad.Base.{
  value_of, ℕ, Bool, true, false, not, ◌&&◌, Option, none, some, List, [], ◌∷◌, String, Dict,
  str_eq, trim_space, if◌then◌else◌,
}
use gc_runtime_nomad.Lifecycle.Error.{Err, message, wrap, is, job_forbidden, Result, ok, err}
use gc_runtime_nomad.Lifecycle.Types.{Binding, zero_binding}
use gc_runtime_nomad.Lifecycle.World.{
  Lifecycle, dispatch_sent, register_sent, World, M, pure, raise, attempt, annotate, call, observe,
  emit, ◌>>=◌, ◌>>◌,
}
use gc_runtime_nomad.Lifecycle.Sidecar.{load, save}
use gc_runtime_nomad.Lifecycle.Recover.{find_orphan_by_nonce, live_child}

abbrev pub jobspec_hash_key : String
jobspec_hash_key = "gc_jobspec_hash"

-- parentPoolMoveRefusal: a registered pool, and none computed.
unfoldable pub parent_pool_move_refused : Bool → String → String → Bool
parent_pool_move_refused exists registered computed =
    exists && not (str_eq registered "") && str_eq computed ""

-- parentPoolMoveWarning: whether there is one.
unfoldable pub parent_pool_move_warned : Bool → String → String → Bool
parent_pool_move_warned exists registered computed =
    exists
    && not (str_eq registered "")
    && not (str_eq computed "")
    && not (str_eq registered computed)

abbrev pub exists_pool : Option (String × Dict String) → Bool × String × Dict String
exists_pool none = (false, "", [])
exists_pool (some (pool, meta)) = (true, pool, meta)

module _ {N : Type 0} (l : Lifecycle N) where
  -- The registered parent is the one that this build would register.
  unfoldable pub is_current : Option (String × Dict String) → Bool
  is_current none = false
  is_current (some (pool, meta)) =
      str_eq pool l.node_pool && str_eq (value_of jobspec_hash_key meta) l.jobspec_hash

  unfoldable pub registered : Bool → Result (Unit {0}) → M N (Unit {0})
  registered exists (ok _) = pure tt
  registered exists (err e) =
      if is job_forbidden e
      then raise (
          wrap
            (if exists
              then "parent job is stale — re-register with a management token"
              else "token lacks the submit-job capability required to register jobs")
            e)
      else raise (wrap "registering parent job" e)

  unfoldable pub register_parent : Bool → M N (Unit {0})
  register_parent exists = do
    emit (register_sent l.parent_job_id)
    r ← attempt (call (l.client.register_job l.node_pool ((jobspec_hash_key, l.jobspec_hash) ∷ [])))
    registered exists r

  unfoldable pub refresh_parent : Bool → String → M N (Unit {0})
  refresh_parent exists pool =
      if parent_pool_move_refused exists pool l.node_pool
      then raise (message "refusing to re-register parent job")
      else if l.forbid_registration
      then raise (message "GC_NOMAD_FORBID_REGISTER forbids registering it")
      else register_parent exists

  unfoldable pub ensure_parent_registered : M N (Unit {0})
  ensure_parent_registered = do
    found ← annotate "looking up parent job" (call (l.client.get_job l.parent_job_id))
    let (exists, pool, _) = exists_pool found
    if is_current found then pure tt else refresh_parent exists pool

  unfoldable pub intent_for : String → String → ℕ → Binding
  intent_for session nonce now = record zero_binding {
    session_name = session;
    namespace = l.client.namespace;
    nonce = nonce;
    created_at = now;
  }

  -- A fresh child: the intent is on disk before the request is sent.
  unfoldable pub dispatch_fresh : String → String → M N (Unit {0})
  dispatch_fresh session image = do
    nonce ← call l.new_nonce
    now ← observe l.clock
    let intent = intent_for session nonce now
    save l intent
    emit (dispatch_sent session nonce)
    child ← call (l.client.dispatch_child_at l.parent_job_id session nonce now image)
    save l (record intent { child_job_id = child })

  -- An intent whose child the cluster lists is completed; no second child is dispatched.
  unfoldable pub dispatch_adopting :
      String → String → Binding → Result (Option String) → M N (Unit {0})
  dispatch_adopting session image existing (ok (some adopted)) =
      save l (record existing { child_job_id = adopted })
  dispatch_adopting session image existing (ok none) = dispatch_fresh session image
  dispatch_adopting session image existing (err e) = dispatch_fresh session image

  unfoldable pub dispatch_from : String → String → Option Binding → M N (Unit {0})
  dispatch_from session image none = dispatch_fresh session image
  dispatch_from session image (some existing) =
      if not (not (str_eq existing.nonce "") && str_eq existing.child_job_id "")
      then dispatch_fresh session image
      else do
        orphan ← attempt (find_orphan_by_nonce l session existing.nonce)
        dispatch_adopting session image existing orphan

  unfoldable pub dispatch_unless_live :
      String → String → Option Binding → Option Binding → M N (Unit {0})
  dispatch_unless_live session image existing (some live) = raise (message "session already exists")
  dispatch_unless_live session image existing none = do
    ensure_parent_registered
    dispatch_from session image existing

  unfoldable pub dispatch : String → String → M N (Unit {0})
  dispatch session image = do
    existing ← load l session
    live ← live_child l session
    dispatch_unless_live session image existing live
