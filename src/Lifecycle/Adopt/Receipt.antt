-- ===== src/Lifecycle/Adopt/Receipt.antt =====
-- The order of a reaped box's tombstone and its stop (runtime/ops.go, reapChild).
use gc_runtime_nomad.Base.{true, false, List, [], ◌∷◌, String, ◌≡◌, refl, ◌⊎◌, inl}
use gc_runtime_nomad.Lifecycle.Types.{Binding, Tombstone}
use gc_runtime_nomad.Lifecycle.World.{
  Lifecycle, World, M, Event, tombstoned, deregister_sent, emit, ◌>>=◌,
}
use gc_runtime_nomad.Lifecycle.World.Keeping.{
  Keeps, Closed, Keeps-bind, Keeps-pure, Keeps-raise, Keeps-observe,
}
use gc_runtime_nomad.Lifecycle.World.Triples.{
  Triple, Triple-bind, Triple-keeps, Triple-annotate, Triple-consequence, Triple-Keeps,
}
use gc_runtime_nomad.Lifecycle.Sidecar.{tombstone}
use gc_runtime_nomad.Lifecycle.Sidecar.Laws.{disk-Keeps}
use gc_runtime_nomad.Lifecycle.Stop.{op_stop}
use gc_runtime_nomad.Lifecycle.Stop.Laws.{Stoppable, op_stop-Keeps}
use gc_runtime_nomad.Lifecycle.Launch.Laws.{confirm_launched-Keeps}
use gc_runtime_nomad.Lifecycle.Adopt.Laws.{live_alloc_id-Keeps, classify_adoption-Keeps}
use gc_runtime_nomad.Lifecycle.Adopt.{
  AdoptPath, adopt_reuse, adopt_reject, adopt_self_heal_launched, adopt_reap, tombstone_of,
  reap_child, adopt_path, adopt_existing,
}

-- A tombstone of the session and its child was written.
abbrev pub Receipt : String → String → List Event → Type 0
Receipt session child [] = ⊥
Receipt session child (tombstoned t ∷ older) =
    ((t.session_name ≡ session) × (t.child_job_id ≡ child)) ⊎ Receipt session child older
Receipt session child (_ ∷ older) = Receipt session child older

-- Each deregistration in the trace has such a tombstone before it.
abbrev pub ReceiptFirst : String → String → List Event → Type 0
ReceiptFirst session child [] = Unit
ReceiptFirst session child (deregister_sent _ ∷ older) =
    Receipt session child older × ReceiptFirst session child older
ReceiptFirst session child (_ ∷ older) = ReceiptFirst session child older

module _ {N : Type 0} (session child : String) where
  abbrev First : World N → Type 0
  First w = ReceiptFirst session child w.trace

  abbrev Written : World N → Type 0
  Written w = First w × Receipt session child w.trace

  First-Closed : Closed First
  First-Closed = record {
    moving = λ w n h. h;
    saving = λ w b files h. h;
    copying = λ w s alloc name body h. h;
  }

  -- Once the tombstone is there, a stop may send what it sends.
  Written-Stoppable : Stoppable Written
  Written-Stoppable = record {
    closed = record {
      moving = λ w n h. h;
      saving = λ w b files h. h;
      copying = λ w s alloc name body h. h;
    };
    removing = λ w s files h. h;
    deregistering = λ w c h. ((h.1, h.0), h.1);
  }

module _ {N : Type 0} (l : Lifecycle N) (session child : String) where
  abbrev Kept : {A : Type 0} → M N A → Type 0
  Kept m = Keeps (First {N = N} session child) m

  closed : Closed (First {N = N} session child)
  closed = First-Closed session child

  -- A tombstone that is written is the receipt.
  abbrev Done : World N → Type 0
  Done = Written session child

  kept :
      {A : Type 0} (m : M N A)
      → Kept m
      → Triple (First session child) m (λ _. First session child) (First session child)
  kept m k = Triple-keeps m k (λ w h. h)

  bury-Written :
      (t : Tombstone)
      → t.session_name ≡ session
      → t.child_job_id ≡ child
      → Triple (First session child) (emit (tombstoned t)) (λ _. Done) (First session child)
  unfolding ◌>>=◌
  bury-Written t named of_child = record { at = λ w h. (h, inl (named, of_child)) }

  tombstone-Written :
      (t : Tombstone)
      → t.session_name ≡ session
      → t.child_job_id ≡ child
      → Triple (First session child) (tombstone l t) (λ _. Done) (First session child)
  unfolding tombstone
  tombstone-Written t named of_child = Triple-bind _ _ (kept _ (disk-Keeps closed l _ _)) λ _.
      Triple-bind _ _ (kept _ (disk-Keeps closed l _ _))
        λ _. Triple-bind _ _ (kept _ (disk-Keeps closed l _ _)) λ _. bury-Written t named of_child

  stop-Done : Triple Done (op_stop l session) (λ _. Done) (First session child)
  stop-Done =
      Triple-keeps _ (op_stop-Keeps (Written-Stoppable session child) l session) (λ w h. h.0)

  reap_child-Keeps :
      (b : Binding) (why : String) → b.child_job_id ≡ child → Kept (reap_child l session b why)
  unfolding reap_child tombstone_of
  reap_child-Keeps b why of_child = Triple-Keeps _ (
      Triple-bind _ _ (kept _ (live_alloc_id-Keeps closed l b)) λ alloc.
        Triple-bind _ _ (kept _ (Keeps-observe _ closed)) λ now.
          Triple-bind _ _ (kept _ (Keeps-observe _ closed)) λ written.
            Triple-bind _ _
              (Triple-annotate _ _
                (tombstone-Written (tombstone_of l session b why alloc now written) refl of_child))
              λ _. Triple-consequence _ (λ w h. h) (Triple-annotate _ _ stop-Done) (λ _ w h. h.0))

  path-Keeps :
      (b : Binding) (path : AdoptPath) (why : String)
      → b.child_job_id ≡ child
      → Kept (adopt_path l session b (path, why))
  unfolding adopt_path
  path-Keeps b adopt_reuse why of_child = Keeps-pure true
  path-Keeps b adopt_reject why of_child = Keeps-raise _
  path-Keeps b adopt_self_heal_launched why of_child =
      Keeps-bind _ _ (confirm_launched-Keeps closed l session _ _ _) λ _. Keeps-raise _
  path-Keeps b adopt_reap why of_child =
      Keeps-bind _ _ (reap_child-Keeps b why of_child) λ _. Keeps-pure false

-- Whatever the cluster and the disk do, when `adoptExisting` decides over a binding, it sends a
-- deregistration only after a tombstone that names the session and the binding's child was written:
-- if that holds of the trace before the call, it holds after it, on success and on error.
pub adopt_existing-ReceiptFirst :
    {N : Type 0} (l : Lifecycle N) (session : String) (b : Binding) (w : World N)
    → ReceiptFirst session b.child_job_id w.trace
    → ReceiptFirst session b.child_job_id (adopt_existing l session b w).1.trace
unfolding adopt_existing
adopt_existing-ReceiptFirst l session b w h =
    (Keeps-bind _ _ (classify_adoption-Keeps (First-Closed session b.child_job_id) l b)
        λ answer. path-Keeps l session b.child_job_id b answer.0 answer.1 refl).at
      w h
