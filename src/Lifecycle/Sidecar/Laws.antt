-- ===== src/Lifecycle/Sidecar/Laws.antt =====
-- What the lifecycle's proofs use of the sidecar (runtime/sidecar.go).
use gc_runtime_nomad.Base.{
  Option, none, some, List, ◌∷◌, String, Dict, ◌≡◌, refl, lookup-insert_self, lookup, insert,
}
use gc_runtime_nomad.Lifecycle.Types.{Binding}
use gc_runtime_nomad.Lifecycle.World.{
  DiskOp, Lifecycle, FileBody, json, garbage, Event, saved, World, emit, put_bindings, ◌>>=◌,
}
use gc_runtime_nomad.Lifecycle.World.Keeping.{Keeps, Closed, keeps_rules, Keeps-gets}
use gc_runtime_nomad.Lifecycle.World.Triples.{
  Triple, Triple-bind, Triple-keeps, Triple-observe, Triple-if, Triple-raise, Triple-pure,
  Triple-gets,
}
use gc_runtime_nomad.Lifecycle.Sidecar.{decode, disk, load, save}

module _ {N : Type 0} {P : World N → Type 0} where
  decode-Keeps : (o : Option FileBody) → Keeps P (decode o)
  unfolding decode
  decode-Keeps none = search keeps_rules
  decode-Keeps (some (json b)) = search keeps_rules
  decode-Keeps (some garbage) = search keeps_rules

module _ {N : Type 0} {P : World N → Type 0} (closed : Closed P) (l : Lifecycle N) where
  pub disk-Keeps : (op : DiskOp) (what : String) → Keeps P (disk l op what)
  unfolding disk
  disk-Keeps op what = search (keeps_rules, closed)

  pub load-Keeps : (session : String) → Keeps P (load l session)
  unfolding load
  load-Keeps session = search (keeps_rules, decode-Keeps, disk-Keeps)

  commit :
      (b : Binding) (files : Dict FileBody) → Keeps P (put_bindings files >>= λ _. emit (saved b))
  unfolding ◌>>=◌
  commit b files = record { at = λ w h. closed.saving w b files h }

  pub save-Keeps : (b : Binding) → Keeps P (save l b)
  unfolding save
  save-Keeps b = search (keeps_rules, disk-Keeps, commit)

  -- A save that succeeds is the newest event, and the file holds the binding.
  abbrev pub IsSaved : Binding → World N → Type 0
  IsSaved b w =
      ((older : List Event) × (w.trace ≡ saved b ∷ older))
      × (lookup b.session_name w.bindings ≡ some (json b))

  committed :
      (b : Binding) (files : Dict FileBody) (E : World N → Type 0)
      → Triple P
          (put_bindings (insert b.session_name (json b) files) >>= λ _. emit (saved b))
          (λ _ w. P w × IsSaved b w)
          E
  unfolding ◌>>=◌
  committed b files E = record {
    at = λ w h. (
      closed.saving w b _ h,
      ((w.trace, refl), lookup-insert_self b.session_name (json b) files),
    );
  }

  pub save-IsSaved : (b : Binding) → Triple P (save l b) (λ _ w. P w × IsSaved b w) P
  unfolding save
  save-IsSaved b = Triple-bind {Q = λ _. P} _ _ (Triple-keeps _ (disk-Keeps _ _) (λ w h. h)) λ _.
      Triple-bind {Q = λ _. P} _ _ (Triple-keeps _ (disk-Keeps _ _) (λ w h. h)) λ _.
        Triple-bind {Q = λ _. P} _ _ (Triple-keeps _ (Keeps-gets _) (λ w h. h))
          λ files. committed b files P

-- What holds on the way of the outside.
abbrev pub Moves : {N : Type 0} → (World N → Type 0) → Type 0
Moves {N = N} P = (w : World N) (n : N) → P w → P (record w { outside = n })

-- `w` comes from a world where `P` held by one save of `b`.
abbrev pub Pushed : {N : Type 0} → (World N → Type 0) → Binding → World N → Type 0
Pushed {N = N} P b w =
    (old : World N) × P old
    × (w.trace ≡ saved b ∷ old.trace)
    × (lookup b.session_name w.bindings ≡ some (json b))

module _ {N : Type 0} {P : World N → Type 0} (moves : Moves P) (l : Lifecycle N) where
  disk-Moves : (op : DiskOp) (what : String) → Triple P (disk l op what) (λ _. P) P
  unfolding disk
  disk-Moves op what =
      Triple-bind {Q = λ _. P} _ _ (Triple-observe _ _ λ failed w n h. moves w n h) λ failed.
        Triple-if failed _ _ (λ _. Triple-raise _ _ λ w h. h) (λ _. Triple-pure _ _ λ w h. h)

  pushing :
      (b : Binding) (files : Dict FileBody)
      → Triple P
          (put_bindings (insert b.session_name (json b) files) >>= λ _. emit (saved b))
          (λ _. Pushed P b)
          P
  unfolding ◌>>=◌
  pushing b files = record {
    at = λ w h. (w, h, refl, lookup-insert_self b.session_name (json b) files);
  }

  pub save-Pushed : (b : Binding) → Triple P (save l b) (λ _. Pushed P b) P
  unfolding save
  save-Pushed b = Triple-bind _ _ (disk-Moves _ _) λ _.
      Triple-bind _ _ (disk-Moves _ _)
        λ _. Triple-bind {Q = λ _. P} _ _ (Triple-gets _ _ λ w h. h) λ files. pushing b files
