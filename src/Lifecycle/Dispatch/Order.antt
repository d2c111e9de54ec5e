-- ===== src/Lifecycle/Dispatch/Order.antt =====
-- The order of a dispatch's intent and its request (runtime/ops.go, dispatch).
use gc_runtime_nomad.Base.{
  not, ◌&&◌, Option, none, some, List, [], ◌∷◌, String, ◌≡◌, refl, ◌⊎◌, inl, str_eq,
}
use gc_runtime_nomad.Lifecycle.Error.{Result, ok, err}
use gc_runtime_nomad.Lifecycle.Types.{Binding}
use gc_runtime_nomad.Lifecycle.World.{Lifecycle, World, M, Event, saved, dispatch_sent, emit, ◌>>=◌}
use gc_runtime_nomad.Lifecycle.World.Keeping.{
  Keeps, Closed, Keeps-bind, Keeps-call, Keeps-observe, Keeps-attempt, Keeps-raise, Keeps-if,
}
use gc_runtime_nomad.Lifecycle.World.Triples.{
  Triple, Triple-bind, Triple-keeps, Triple-consequence, Triple-Keeps,
}
use gc_runtime_nomad.Lifecycle.Sidecar.Laws.{load-Keeps, save-Keeps, save-IsSaved}
use gc_runtime_nomad.Lifecycle.Recover.Laws.{live_child-Keeps, find_orphan_by_nonce-Keeps}
use gc_runtime_nomad.Lifecycle.Dispatch.Laws.{Registrable, ensure_parent_registered-Keeps}
use gc_runtime_nomad.Lifecycle.Dispatch.{
  intent_for, dispatch_fresh, dispatch_adopting, dispatch_from, dispatch_unless_live, dispatch,
}

-- An intent with the nonce, of a session that has no child yet, was saved.
abbrev pub Intended : String → String → List Event → Type 0
Intended session nonce [] = ⊥
Intended session nonce (saved b ∷ older) =
    ((b.session_name ≡ session) × (b.nonce ≡ nonce) × (b.child_job_id ≡ ""))
    ⊎ Intended session nonce older
Intended session nonce (_ ∷ older) = Intended session nonce older

-- Each dispatch request in the trace has such a save before it.
abbrev pub IntentFirst : List Event → Type 0
IntentFirst [] = Unit
IntentFirst (dispatch_sent session nonce ∷ older) = Intended session nonce older × IntentFirst older
IntentFirst (_ ∷ older) = IntentFirst older

module _ {N : Type 0} where
  abbrev Ordered : World N → Type 0
  Ordered w = IntentFirst w.trace

  Ordered-Closed : Closed Ordered
  Ordered-Closed = record {
    moving = λ w n h. h;
    saving = λ w b files h. h;
    copying = λ w session alloc name body h. h;
  }

  Ordered-Registrable : Registrable Ordered
  Ordered-Registrable = record { closed = Ordered-Closed; registering = λ w job h. h }

module _ {N : Type 0} (l : Lifecycle N) where
  -- The intent's save is what the request needs.
  sent-Keeps :
      (session nonce : String)
      → Triple {N = N}
          (λ w. Ordered w × Intended session nonce w.trace)
          (emit (dispatch_sent session nonce))
          (λ _. Ordered)
          Ordered
  unfolding ◌>>=◌
  sent-Keeps session nonce = record { at = λ w (order, intent). (intent, order) }

  kept : {A : Type 0} (m : M N A) → Keeps Ordered m → Triple Ordered m (λ _. Ordered) Ordered
  kept m k = Triple-keeps m k (λ w h. h)

  fresh-Keeps : (session image : String) → Keeps Ordered (dispatch_fresh l session image)
  unfolding dispatch_fresh intent_for
  fresh-Keeps session image = Triple-Keeps _ (
      Triple-bind _ _ (kept _ (Keeps-call _ Ordered-Closed)) λ nonce.
        Triple-bind _ _ (kept _ (Keeps-observe _ Ordered-Closed)) λ now.
          Triple-bind {Q = λ _ w. Ordered w × Intended session nonce w.trace} _ _
            (Triple-consequence _ (λ w h. h)
              (save-IsSaved Ordered-Closed l (intent_for l session nonce now))
              (λ _ w (order, ((older, newest), _)). (order, rw newest (inl (refl, refl, refl)))))
            λ _. Triple-bind _ _ (sent-Keeps session nonce) λ _.
              Triple-bind _ _ (kept _ (Keeps-call _ Ordered-Closed))
                λ child. kept _ (save-Keeps Ordered-Closed l _))

  adopting-Keeps :
      (session image : String) (b : Binding) (r : Result (Option String))
      → Keeps Ordered (dispatch_adopting l session image b r)
  unfolding dispatch_adopting
  adopting-Keeps session image b (ok (some child)) = save-Keeps Ordered-Closed l _
  adopting-Keeps session image b (ok none) = fresh-Keeps session image
  adopting-Keeps session image b (err e) = fresh-Keeps session image

  from-Keeps :
      (session image : String) (o : Option Binding)
      → Keeps Ordered (dispatch_from l session image o)
  unfolding dispatch_from
  from-Keeps session image none = fresh-Keeps session image
  from-Keeps session image (some b) =
      Keeps-if (not (not (str_eq b.nonce "") && str_eq b.child_job_id "")) _ _
        (λ _. fresh-Keeps session image)
        λ _.
          Keeps-bind _ _
            (Keeps-attempt _ (find_orphan_by_nonce-Keeps Ordered-Closed l session b.nonce))
            λ r. adopting-Keeps session image b r

  unless_live-Keeps :
      (session image : String) (o live : Option Binding)
      → Keeps Ordered (dispatch_unless_live l session image o live)
  unfolding dispatch_unless_live
  unless_live-Keeps session image o (some live) = Keeps-raise _
  unless_live-Keeps session image o none =
      Keeps-bind _ _ (ensure_parent_registered-Keeps Ordered-Registrable l)
        λ _. from-Keeps session image o

-- Whatever the cluster and the disk do, a request to dispatch a child of a session is sent only
-- after a binding of that session with the request's nonce and no child was written to the sidecar:
-- if that holds of the trace before `dispatch`, it holds after it, on success and on error.
pub dispatch-IntentFirst :
    {N : Type 0} (l : Lifecycle N) (session image : String) (w : World N)
    → IntentFirst w.trace
    → IntentFirst (dispatch l session image w).1.trace
unfolding dispatch
dispatch-IntentFirst l session image w h =
    (Keeps-bind _ _ (load-Keeps Ordered-Closed l session) λ o.
        Keeps-bind _ _ (live_child-Keeps Ordered-Closed l session)
          λ live. unless_live-Keeps l session image o live).at
      w h
