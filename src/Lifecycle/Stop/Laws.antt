-- ===== src/Lifecycle/Stop/Laws.antt =====
-- What stopping a session keeps (runtime/ops.go, opStop and what it calls).
use gc_runtime_nomad.Base.{
  ℕ, zero, suc, Bool, not, ◌&&◌, ◌||◌, Option, none, some, List, [], ◌∷◌, String, Dict, ◌==◌, leb,
  str_eq,
}
use gc_runtime_nomad.Lifecycle.Error.{Result, ok, err}
use gc_runtime_nomad.Lifecycle.Types.{Binding, AllocRecord}
use gc_runtime_nomad.Lifecycle.World.{
  Lifecycle, FileBody, World, M, removed, copied, deregister_sent, emit, put_bindings, ◌>>=◌,
}
use gc_runtime_nomad.Lifecycle.World.Keeping.{
  Keeps, Closed, keeps_rules, Keeps-bind, Keeps-call, Keeps-attempt, Keeps-pure, Keeps-raise,
  Keeps-observe, Keeps-if, Keeps-gets,
}
use gc_runtime_nomad.Lifecycle.Sidecar.{remove}
use gc_runtime_nomad.Lifecycle.Sidecar.Laws.{disk-Keeps, load-Keeps, save-Keeps}
use gc_runtime_nomad.Lifecycle.Alloc.{current_alloc}
use gc_runtime_nomad.Lifecycle.Alloc.Laws.{current_alloc-Keeps, run_driving_verb-Keeps}
use gc_runtime_nomad.Lifecycle.Stop.{
  copy_body, copy_files, copy_allocs, egress_alloc_files, egress_next, egress_attempts, flush_again,
  await_flush, flush_log_shipper, flush_marked, egress_marked, save_outcome, deregister,
  await_stopped, stop_child, stop_from, op_stop,
}

module _ {N : Type 0} {P : World N → Type 0} (closed : Closed P) (l : Lifecycle N) where
  copying-Keeps :
      (session alloc name body : String) → Keeps {N = N} P (emit (copied session alloc name body))
  unfolding ◌>>=◌
  copying-Keeps session alloc name body = record {
    at = λ w h. closed.copying w session alloc name body h;
  }

  copy_body-Keeps :
      (session alloc name : String) (r : Result String) → Keeps P (copy_body l session alloc name r)
  unfolding copy_body
  copy_body-Keeps session alloc name (ok body) =
      search (keeps_rules, disk-Keeps, copying-Keeps) depth 8
  copy_body-Keeps session alloc name (err e) = search keeps_rules

  copy_files-Keeps :
      (session alloc : String) (files : List (String × String))
      → Keeps P (copy_files l session alloc files)
  unfolding copy_files
  copy_files-Keeps session alloc [] = search keeps_rules
  copy_files-Keeps session alloc ((path, name) ∷ files) =
      Keeps-bind _ _ (search (keeps_rules, closed)) λ body.
        Keeps-bind _ _ (copy_body-Keeps session alloc name body)
          λ _. copy_files-Keeps session alloc files

  copy_allocs-Keeps :
      (session : String) (allocs : List AllocRecord) → Keeps P (copy_allocs l session allocs)
  unfolding copy_allocs
  copy_allocs-Keeps session [] = search keeps_rules
  copy_allocs-Keeps session (a ∷ allocs) =
      Keeps-bind _ _ (copy_files-Keeps session a.id _) λ _. copy_allocs-Keeps session allocs

  egress_alloc_files-Keeps : (session child : String) → Keeps P (egress_alloc_files l session child)
  unfolding egress_alloc_files
  egress_alloc_files-Keeps session child =
      search (keeps_rules, closed, disk-Keeps, copy_allocs-Keeps) depth 8

  egress_next-Keeps :
      (next : M N Bool) (r : Result (Unit {0})) → Keeps P next → Keeps P (egress_next l next r)
  unfolding egress_next
  egress_next-Keeps next (ok _) k = search keeps_rules
  egress_next-Keeps next (err _) k = k

  pub egress_attempts-Keeps :
      (left : ℕ) (session child : String) → Keeps P (egress_attempts l left session child)
  unfolding egress_attempts
  egress_attempts-Keeps zero session child = search keeps_rules
  egress_attempts-Keeps (suc left) session child =
      Keeps-bind _ _ (search (keeps_rules, egress_alloc_files-Keeps))
        λ r. egress_next-Keeps _ r (egress_attempts-Keeps left session child)

  flush_again-Keeps :
      (deadline exit_code : ℕ) (next : M N (Unit {0}))
      → Keeps P next
      → Keeps P (flush_again l deadline next exit_code)
  unfolding flush_again
  flush_again-Keeps deadline exit_code next k =
      Keeps-if (exit_code == 0) _ _ (λ _. Keeps-pure tt)
        λ _. Keeps-bind _ _ (Keeps-observe _ closed) λ now.
          Keeps-if (leb deadline now) _ _ (λ _. Keeps-raise _)
            λ _. Keeps-bind _ _ (Keeps-observe _ closed) λ _. k

  await_flush-Keeps :
      (fuel deadline : ℕ) (alloc : String) → Keeps P (await_flush l fuel deadline alloc)
  unfolding await_flush
  await_flush-Keeps zero deadline alloc = search keeps_rules
  await_flush-Keeps (suc fuel) deadline alloc =
      Keeps-bind _ _ (search (keeps_rules, closed))
        λ answer. flush_again-Keeps deadline answer.0 _ (await_flush-Keeps fuel deadline alloc)

  flush_log_shipper-Keeps : (alloc : String) → Keeps P (flush_log_shipper l alloc)
  unfolding flush_log_shipper
  flush_log_shipper-Keeps alloc = search (keeps_rules, closed, await_flush-Keeps) depth 12

  pub flush-Keeps : (session : String) → Keeps P (current_alloc l session >>= flush_log_shipper l)
  flush-Keeps session = search (keeps_rules, flush_log_shipper-Keeps, current_alloc-Keeps)

-- What an invariant of stopping a session must survive beside `Closed`.
pub record Stoppable {N : Type 0} (P : World N → Type 0) : Type 0 where
  pub closed : Closed P
  pub removing :
      (w : World N) (session : String) (files : Dict FileBody)
      → P w
      → P (record w { bindings = files; trace = removed session ∷ w.trace })
  pub deregistering :
      (w : World N) (child : String)
      → P w
      → P (record w { trace = deregister_sent child ∷ w.trace })

module _ {N : Type 0} {P : World N → Type 0} (stoppable : Stoppable P) (l : Lifecycle N) where
  removing-Keeps :
      (session : String) (files : Dict FileBody)
      → Keeps P (put_bindings files >>= λ _. emit (removed session))
  unfolding ◌>>=◌
  removing-Keeps session files = record { at = λ w h. stoppable.removing w session files h }

  pub remove-Keeps : (session : String) → Keeps P (remove l session)
  unfolding remove
  remove-Keeps session =
      Keeps-bind _ _ (disk-Keeps stoppable.closed l _ _)
        λ _. Keeps-bind _ _ (Keeps-gets _) λ files. removing-Keeps session _

  sending-Keeps : (child : String) → Keeps P (emit (deregister_sent child))
  unfolding ◌>>=◌
  sending-Keeps child = record { at = λ w h. stoppable.deregistering w child h }

  deregister-Keeps : (child : String) → Keeps P (deregister l child)
  unfolding deregister
  deregister-Keeps child = Keeps-bind _ _ (sending-Keeps child) λ _. Keeps-call _ stoppable.closed

  flush_marked-Keeps : (session : String) (b : Binding) → Keeps P (flush_marked l session b)
  unfolding flush_marked
  flush_marked-Keeps session b =
      Keeps-if (not (l.log_shipper_enabled && not b.evidence_lost)) _ _ (λ _. Keeps-pure b)
        λ _.
          Keeps-bind _ _ (Keeps-attempt _ (flush-Keeps stoppable.closed l session))
            λ r. Keeps-pure _

  egress_marked-Keeps :
      (needed : Bool) (session : String) (b : Binding) → Keeps P (egress_marked l needed session b)
  unfolding egress_marked
  egress_marked-Keeps needed session b =
      Keeps-if (not needed) _ _ (λ _. Keeps-pure b)
        λ _.
          Keeps-bind _ _ (egress_attempts-Keeps stoppable.closed l 3 session b.child_job_id)
            λ done. Keeps-pure _

  save_outcome-Keeps : (b : Binding) → Keeps P (save_outcome l b)
  unfolding save_outcome
  save_outcome-Keeps b =
      Keeps-if (b.egress_complete || b.evidence_lost) _ _ (λ _. save-Keeps stoppable.closed l b)
        (λ _. Keeps-pure tt)

  pub await_stopped-Keeps : (child : String) (idx : ℕ) → Keeps P (await_stopped l child idx)
  unfolding await_stopped
  await_stopped-Keeps child idx =
      Keeps-if (idx == 0) _ _ (λ _. Keeps-pure tt)
        λ _. Keeps-bind _ _ (Keeps-attempt _ (Keeps-call _ stoppable.closed)) λ _. Keeps-pure tt

  -- Everything that stop_child does before it removes the sidecar file, and then the removal.
  pub stop_child-Keeps : (session : String) (b : Binding) → Keeps P (stop_child l session b)
  unfolding stop_child
  stop_child-Keeps session b =
      Keeps-bind _ _ (Keeps-attempt _ (run_driving_verb-Keeps stoppable.closed l session _ _)) λ _.
        Keeps-bind _ _ (flush_marked-Keeps session b) λ flushed.
          Keeps-bind _ _ (egress_marked-Keeps _ session flushed) λ marked.
            Keeps-bind _ _ (save_outcome-Keeps marked) λ _.
              Keeps-bind _ _ (deregister-Keeps marked.child_job_id) λ idx.
                Keeps-bind _ _ (await_stopped-Keeps marked.child_job_id idx)
                  λ _. remove-Keeps session

  stop_from-Keeps : (session : String) (o : Option Binding) → Keeps P (stop_from l session o)
  unfolding stop_from
  stop_from-Keeps session none = Keeps-pure tt
  stop_from-Keeps session (some b) =
      Keeps-if (str_eq b.child_job_id "") _ _ (λ _. remove-Keeps session)
        (λ _. stop_child-Keeps session b)

  pub op_stop-Keeps : (session : String) → Keeps P (op_stop l session)
  unfolding op_stop
  op_stop-Keeps session =
      Keeps-bind _ _ (load-Keeps stoppable.closed l session) λ o. stop_from-Keeps session o
