-- ===== src/Lifecycle/Stop/Removal.antt =====
-- The sidecar file of a stopped session (runtime/ops.go, opStop).
use gc_runtime_nomad.Base.{
  Option, none, some, String, Dict, ◌≡◌, refl, subst, lookup, erase, lookup-erase_self, str_eq,
}
use gc_runtime_nomad.Lifecycle.Error.{Result, ok, err}
use gc_runtime_nomad.Lifecycle.Types.{Binding}
use gc_runtime_nomad.Lifecycle.World.{
  Lifecycle, FileBody, json, garbage, World, M, removed, emit, put_bindings, ◌>>=◌,
}
use gc_runtime_nomad.Lifecycle.World.Triples.{
  Post, Triple, Triple-bind, Triple-pure, Triple-raise, Triple-if, Triple-gets, Triple-consequence,
}
use gc_runtime_nomad.Lifecycle.Sidecar.{decode, load, remove}
use gc_runtime_nomad.Lifecycle.Stop.{stop_child, stop_from, op_stop}

module _ {N : Type 0} (l : Lifecycle N) where
  -- No sidecar file of the session.
  abbrev Gone : String → World N → Type 0
  Gone session w = lookup session w.bindings ≡ none

  any_Triple : {A : Type 0} (m : M N A) → Triple (λ _. Unit) m (λ _ _. Unit) (λ _. Unit)
  any_Triple {A = A} m = record { at = λ w _. outcome (m w) }
    where
      outcome : (r : Result A × World N) → Post (λ _ _. Unit) (λ _. Unit) r
      outcome (ok a, w) = tt
      outcome (err e, w) = tt

  removing-Gone :
      (session : String) (files : Dict FileBody)
      → Triple {N = N}
          (λ _. Unit)
          (put_bindings (erase session files) >>= λ _. emit (removed session))
          (λ _. Gone session)
          (λ _. Unit)
  unfolding ◌>>=◌
  removing-Gone session files = record { at = λ w _. lookup-erase_self session files }

  remove-Gone :
      (session : String) → Triple (λ _. Unit) (remove l session) (λ _. Gone session) (λ _. Unit)
  unfolding remove
  remove-Gone session =
      Triple-bind _ _ (any_Triple _)
        λ _. Triple-bind _ _ (any_Triple _) λ files. removing-Gone session files

  -- A load that finds no binding saw that there is no file.
  Absent : String → Option Binding → World N → Type 0
  Absent session o w = o ≡ none → Gone session w

  decode-Absent :
      (session : String) (o : Option FileBody)
      → Triple (λ w. lookup session w.bindings ≡ o) (decode o) (Absent session) (λ _. Unit)
  unfolding decode Absent
  decode-Absent session none = Triple-pure _ _ λ w h _. h
  decode-Absent session (some (json b)) = Triple-pure _ _ λ w h found. absurd (cc found)
  decode-Absent session (some garbage) = Triple-raise _ _ λ w h. tt

  load-Absent :
      (session : String) → Triple (λ _. Unit) (load l session) (Absent session) (λ _. Unit)
  unfolding load
  load-Absent session = Triple-bind _ _ (any_Triple _) λ _.
      Triple-bind {Q = λ files w. lookup session w.bindings ≡ lookup session files} _ _
        (Triple-gets _ _ λ w _. refl) λ files. decode-Absent session (lookup session files)

  stop_child-Gone :
      (session : String) (b : Binding)
      → Triple (λ _. Unit) (stop_child l session b) (λ _. Gone session) (λ _. Unit)
  unfolding stop_child
  stop_child-Gone session b = Triple-bind _ _ (any_Triple _) λ _.
      Triple-bind _ _ (any_Triple _) λ flushed. Triple-bind _ _ (any_Triple _) λ marked.
        Triple-bind _ _ (any_Triple _) λ _.
          Triple-bind _ _ (any_Triple _)
            λ idx. Triple-bind _ _ (any_Triple _) λ _. remove-Gone session

  stop_from-Gone :
      (session : String) (o : Option Binding)
      → Triple (Absent session o) (stop_from l session o) (λ _. Gone session) (λ _. Unit)
  unfolding stop_from Absent
  stop_from-Gone session none = Triple-pure _ _ λ w h. h refl
  stop_from-Gone session (some b) =
      Triple-if (str_eq b.child_job_id "") _ _
        (λ _. Triple-consequence _ (λ _ _. tt) (remove-Gone session) (λ _ _ h. h))
        (λ _. Triple-consequence _ (λ _ _. tt) (stop_child-Gone session b) (λ _ _ h. h))

-- When stopping a session succeeds, its sidecar file is gone, whether it was bound to a child, to
-- none, or not bound at all.
pub op_stop-Gone :
    {N : Type 0} (l : Lifecycle N) (session : String) (w w' : World N)
    → op_stop l session w ≡ (ok tt, w')
    → lookup session w'.bindings ≡ none
unfolding op_stop
op_stop-Gone l session w w' p =
    subst (Post (λ _. Gone l session) (λ _. Unit)) p
      ((Triple-bind _ _ (load-Absent l session) (stop_from-Gone l session)).at w tt)
