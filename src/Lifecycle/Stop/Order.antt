-- ===== src/Lifecycle/Stop/Order.antt =====
-- The order of the egress's outcome and the deregistration (runtime/ops.go, opStop).
use gc_runtime_nomad.Base.{
  ℕ, Bool, true, false, not, ◌&&◌, ◌||◌, Option, none, some, List, [], ◌∷◌, String, Dict, ◌≡◌, refl,
  ◌∙◌, ◌⊎◌, inl, arith, str_eq,
}
use gc_runtime_nomad.Lifecycle.Error.{Result, ok, err}
use gc_runtime_nomad.Lifecycle.Types.{Binding}
use gc_runtime_nomad.Lifecycle.World.{
  Lifecycle, FileBody, World, M, Event, saved, removed, deregister_sent, emit, put_bindings, pure,
  ◌>>=◌,
}
use gc_runtime_nomad.Lifecycle.World.Keeping.{
  Keeps, Closed, keeps_rules, Keeps-bind, Keeps-call, Keeps-attempt, Keeps-pure, Keeps-if,
}
use gc_runtime_nomad.Lifecycle.World.Triples.{
  Triple, Triple-bind, Triple-pure, Triple-if, Triple-keeps, Triple-consequence, Triple-Keeps,
}
use gc_runtime_nomad.Lifecycle.Sidecar.{save, remove}
use gc_runtime_nomad.Lifecycle.Sidecar.Laws.{disk-Keeps, load-Keeps, save-IsSaved}
use gc_runtime_nomad.Lifecycle.Alloc.Laws.{run_driving_verb-Keeps}
use gc_runtime_nomad.Lifecycle.Stop.Laws.{egress_attempts-Keeps, flush-Keeps}
use gc_runtime_nomad.Lifecycle.Stop.{
  mark_flush, mark_egress, flush_marked, egress_marked, save_outcome, deregister, await_stopped,
  stop_child, stop_from, op_stop,
}

-- The outcome of a binding's egress is known: it is complete, or the evidence is lost.
abbrev pub is_settled : Binding → Bool
is_settled b = b.egress_complete || b.evidence_lost

-- A settled binding of the child was saved.
abbrev pub Recorded : String → List Event → Type 0
Recorded child [] = ⊥
Recorded child (saved b ∷ older) =
    ((b.child_job_id ≡ child) × (is_settled b ≡ true)) ⊎ Recorded child older
Recorded child (_ ∷ older) = Recorded child older

-- Each deregistration in the trace has such a save before it.
abbrev pub SettledFirst : List Event → Type 0
SettledFirst [] = Unit
SettledFirst (deregister_sent child ∷ older) = Recorded child older × SettledFirst older
SettledFirst (_ ∷ older) = SettledFirst older

module _ {N : Type 0} where
  abbrev pub Ordered : World N → Type 0
  Ordered w = SettledFirst w.trace

  pub Ordered-Closed : Closed Ordered
  Ordered-Closed = record {
    moving = λ w n h. h;
    saving = λ w b files h. h;
    copying = λ w session alloc name body h. h;
  }

module _ {N : Type 0} (l : Lifecycle N) where
  removing-Keeps :
      (session : String) (files : Dict FileBody)
      → Keeps {N = N} Ordered (put_bindings files >>= λ _. emit (removed session))
  unfolding ◌>>=◌
  removing-Keeps session files = record { at = λ w h. h }

  remove-Keeps : (session : String) → Keeps Ordered (remove l session)
  unfolding remove
  remove-Keeps session = search (keeps_rules, disk-Keeps, Ordered-Closed, removing-Keeps) depth 8

  await_stopped-Keeps : (child : String) (idx : ℕ) → Keeps Ordered (await_stopped l child idx)
  unfolding await_stopped
  await_stopped-Keeps child idx = search (keeps_rules, Ordered-Closed) depth 8

  kept : {A : Type 0} (m : M N A) → Keeps Ordered m → Triple Ordered m (λ _. Ordered) Ordered
  kept m k = Triple-keeps m k (λ w h. h)

  -- The markers after the flush and after the egress.
  abbrev Flushed : Binding → Binding → World N → Type 0
  Flushed b b' w =
      Ordered w × (b'.child_job_id ≡ b.child_job_id) × (is_settled b ≡ true → is_settled b' ≡ true)

  abbrev Settled : Binding → Binding → World N → Type 0
  Settled b b' w = Ordered w × (b'.child_job_id ≡ b.child_job_id) × (is_settled b' ≡ true)

  Flushed-Closed : (b b' : Binding) → Closed (Flushed b b')
  Flushed-Closed b b' = record {
    moving = λ w n h. h;
    saving = λ w c files h. h;
    copying = λ w session alloc name body h. h;
  }

  mark_flush-Flushed :
      (b : Binding) (r : Result (Unit {0}))
      → ((mark_flush l b r).child_job_id ≡ b.child_job_id)
        × (is_settled b ≡ true → is_settled (mark_flush l b r) ≡ true)
  unfolding mark_flush
  mark_flush-Flushed b (ok _) = (refl, λ h. h)
  mark_flush-Flushed b (err _) = (refl, λ h. ground arith)

  mark_egress-Settled :
      (b : Binding) (done : Bool)
      → ((mark_egress l b done).child_job_id ≡ b.child_job_id)
        × (is_settled (mark_egress l b done) ≡ true)
  unfolding mark_egress
  mark_egress-Settled b true = (refl, refl)
  mark_egress-Settled b false = (refl, ground arith)

  flush_marked-Flushed :
      (session : String) (b : Binding)
      → Triple Ordered (flush_marked l session b) (Flushed b) Ordered
  unfolding flush_marked
  flush_marked-Flushed session b =
      Triple-if (not (l.log_shipper_enabled && not b.evidence_lost)) (pure b) _
        (λ _. Triple-pure b _ (λ w h. (h, refl, λ s. s)))
        λ _.
          Triple-bind {Q = λ _. Ordered} _ _
            (Triple-keeps _ (Keeps-attempt _ (flush-Keeps Ordered-Closed l session)) (λ w h. h))
            λ r.
              Triple-pure (mark_flush l b r) _
                (λ w h. (h, (mark_flush-Flushed b r).0, (mark_flush-Flushed b r).1))

  idle_settled : (a c : Bool) → not (not a && not c) ≡ true → (a || c) ≡ true
  idle_settled true c h = refl
  idle_settled false true h = refl
  idle_settled false false h = h

  egress_marked-Settled :
      (session : String) (b b' : Binding)
      → Triple
          (Flushed b b')
          (egress_marked l (not b.egress_complete && not b.evidence_lost) session b')
          (Settled b)
          Ordered
  unfolding egress_marked
  egress_marked-Settled session b b' =
      Triple-if (not (not b.egress_complete && not b.evidence_lost)) (pure b') _
        (λ idle.
          Triple-pure b' _
            (λ w h. (h.0, h.1, h.2 (idle_settled b.egress_complete b.evidence_lost idle))))
        λ _.
          Triple-bind {Q = λ _. Flushed b b'} _ _
            (Triple-keeps _
              (egress_attempts-Keeps (Flushed-Closed b b') l 3 session b'.child_job_id)
              (λ w h. h.0))
            λ done.
              Triple-pure (mark_egress l b' done) _ (λ w h.
                (h.0, (mark_egress-Settled b' done).0 ∙ h.1, (mark_egress-Settled b' done).1))

  -- Once the settled binding is on disk the child may be deregistered.
  save_outcome-Recorded :
      (b b' : Binding)
      → Triple
          (Settled b b')
          (save_outcome l b')
          (λ _ w. Ordered w × Recorded b'.child_job_id w.trace)
          Ordered
  unfolding save_outcome
  save_outcome-Recorded b b' =
      Triple-if (is_settled b') (save l b') (pure tt)
        (λ settled.
          Triple-consequence (save l b') (λ w h. h.0) (save-IsSaved Ordered-Closed l b')
            (λ _ w (order, ((older, newest), _)). (order, rw newest (inl (refl, settled)))))
        (λ unsettled. Triple-pure tt _ (λ w h. cc (h.2)))

  -- The request is in the trace, behind the save.
  sent :
      (child : String)
      → Triple {N = N}
          (λ w. Ordered w × Recorded child w.trace)
          (emit (deregister_sent child))
          (λ _. Ordered)
          Ordered
  unfolding ◌>>=◌
  sent child = record { at = λ w (order, recorded). (recorded, order) }

  deregister-Ordered :
      (child : String)
      → Triple (λ w. Ordered w × Recorded child w.trace) (deregister l child) (λ _. Ordered) Ordered
  unfolding deregister
  deregister-Ordered child =
      Triple-bind {Q = λ _. Ordered} _ _ (sent child)
        λ _. Triple-keeps _ (Keeps-call _ Ordered-Closed) (λ w h. h)

  stop_child-Ordered :
      (session : String) (b : Binding)
      → Triple Ordered (stop_child l session b) (λ _. Ordered) Ordered
  unfolding stop_child
  stop_child-Ordered session b =
      Triple-bind {Q = λ _. Ordered} _ _
        (kept _ (Keeps-attempt _ (run_driving_verb-Keeps Ordered-Closed l session _ _)))
        λ _. Triple-bind {Q = Flushed b} _ _ (flush_marked-Flushed session b) λ flushed.
          Triple-bind {Q = Settled b} _ _ (egress_marked-Settled session b flushed) λ marked.
            Triple-bind _ _ (save_outcome-Recorded b marked) λ _.
              Triple-bind _ _ (deregister-Ordered marked.child_job_id) λ idx.
                Triple-bind _ _ (kept _ (await_stopped-Keeps marked.child_job_id idx))
                  λ _. kept _ (remove-Keeps session)

  stop_from-Ordered :
      (session : String) (o : Option Binding) → Keeps Ordered (stop_from l session o)
  unfolding stop_from
  stop_from-Ordered session none = Keeps-pure tt
  stop_from-Ordered session (some b) =
      Keeps-if (str_eq b.child_job_id "") _ _ (λ _. remove-Keeps session)
        (λ _. Triple-Keeps _ (stop_child-Ordered session b))

-- Whatever the cluster, the boxes and the disk do, stopping a session sends no deregistration
-- request before a binding of the same child was written to the sidecar with its egress marked
-- complete or its evidence marked lost: if that order holds of the trace before `opStop`, it holds
-- after it, on success and on error.
pub op_stop-SettledFirst :
    {N : Type 0} (l : Lifecycle N) (session : String) (w : World N)
    → SettledFirst w.trace
    → SettledFirst (op_stop l session w).1.trace
unfolding op_stop
op_stop-SettledFirst l session w h =
    (Keeps-bind _ _ (load-Keeps Ordered-Closed l session) (stop_from-Ordered l session)).at w h
