-- ===== src/Lifecycle/Dispatch/Laws.antt =====
-- What registering the parent and dispatching a child keep (runtime/ops.go,
-- ensureParentRegistered, dispatch).
use gc_runtime_nomad.Base.{Bool, not, ◌&&◌, Option, none, some, ◌∷◌, String, str_eq}
use gc_runtime_nomad.Lifecycle.Error.{Result, ok, err}
use gc_runtime_nomad.Lifecycle.Types.{Binding}
use gc_runtime_nomad.Lifecycle.World.{Lifecycle, World, dispatch_sent, register_sent, emit, ◌>>=◌}
use gc_runtime_nomad.Lifecycle.World.Keeping.{
  Keeps, Closed, keeps_rules, Keeps-bind, Keeps-call, Keeps-observe, Keeps-attempt, Keeps-raise,
  Keeps-if,
}
use gc_runtime_nomad.Lifecycle.Sidecar.Laws.{load-Keeps, save-Keeps}
use gc_runtime_nomad.Lifecycle.Recover.Laws.{live_child-Keeps, find_orphan_by_nonce-Keeps}
use gc_runtime_nomad.Lifecycle.Dispatch.{
  registered, register_parent, refresh_parent, ensure_parent_registered, dispatch_fresh,
  dispatch_adopting, dispatch_from, dispatch_unless_live, dispatch,
}

-- What an invariant of the registration must survive beside `Closed`.
pub record Registrable {N : Type 0} (P : World N → Type 0) : Type 0 where
  pub closed : Closed P
  pub registering :
      (w : World N) (job : String) → P w → P (record w { trace = register_sent job ∷ w.trace })

module _ {N : Type 0} {P : World N → Type 0} (registrable : Registrable P) (l : Lifecycle N) where
  closed : Closed P
  closed = registrable.closed

  registering-Keeps : (job : String) → Keeps P (emit (register_sent job))
  unfolding ◌>>=◌
  registering-Keeps job = record { at = λ w h. registrable.registering w job h }

  registered-Keeps : (exists : Bool) (r : Result (Unit {0})) → Keeps P (registered l exists r)
  unfolding registered
  registered-Keeps exists (ok _) = search keeps_rules
  registered-Keeps exists (err e) = search keeps_rules

  register_parent-Keeps : (exists : Bool) → Keeps P (register_parent l exists)
  unfolding register_parent
  register_parent-Keeps exists =
      search (keeps_rules, closed, registering-Keeps, registered-Keeps) depth 8

  refresh_parent-Keeps : (exists : Bool) (pool : String) → Keeps P (refresh_parent l exists pool)
  unfolding refresh_parent
  refresh_parent-Keeps exists pool = search (keeps_rules, register_parent-Keeps) depth 8

  pub ensure_parent_registered-Keeps : Keeps P (ensure_parent_registered l)
  unfolding ensure_parent_registered
  ensure_parent_registered-Keeps = search (keeps_rules, closed, refresh_parent-Keeps) depth 8

  module _ (sending : (session nonce : String) → Keeps P (emit (dispatch_sent session nonce))) where
    fresh-Keeps : (session image : String) → Keeps P (dispatch_fresh l session image)
    unfolding dispatch_fresh
    fresh-Keeps session image = Keeps-bind _ _ (Keeps-call _ closed) λ nonce.
        Keeps-bind _ _ (Keeps-observe _ closed) λ now. Keeps-bind _ _ (save-Keeps closed l _) λ _.
          Keeps-bind _ _ (sending session nonce)
            λ _. Keeps-bind _ _ (Keeps-call _ closed) λ child. save-Keeps closed l _

    adopting-Keeps :
        (session image : String) (b : Binding) (r : Result (Option String))
        → Keeps P (dispatch_adopting l session image b r)
    unfolding dispatch_adopting
    adopting-Keeps session image b (ok (some child)) = save-Keeps closed l _
    adopting-Keeps session image b (ok none) = fresh-Keeps session image
    adopting-Keeps session image b (err e) = fresh-Keeps session image

    from-Keeps :
        (session image : String) (o : Option Binding) → Keeps P (dispatch_from l session image o)
    unfolding dispatch_from
    from-Keeps session image none = fresh-Keeps session image
    from-Keeps session image (some b) =
        Keeps-if (not (not (str_eq b.nonce "") && str_eq b.child_job_id "")) _ _
          (λ _. fresh-Keeps session image)
          λ _.
            Keeps-bind _ _ (Keeps-attempt _ (find_orphan_by_nonce-Keeps closed l session b.nonce))
              λ r. adopting-Keeps session image b r

    unless_live-Keeps :
        (session image : String) (o live : Option Binding)
        → Keeps P (dispatch_unless_live l session image o live)
    unfolding dispatch_unless_live
    unless_live-Keeps session image o (some live) = Keeps-raise _
    unless_live-Keeps session image o none =
        Keeps-bind _ _ ensure_parent_registered-Keeps λ _. from-Keeps session image o

    pub dispatch-Keeps : (session image : String) → Keeps P (dispatch l session image)
    unfolding dispatch
    dispatch-Keeps session image = Keeps-bind _ _ (load-Keeps closed l session) λ o.
        Keeps-bind _ _ (live_child-Keeps closed l session)
          λ live. unless_live-Keeps session image o live
