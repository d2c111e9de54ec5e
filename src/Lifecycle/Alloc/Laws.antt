-- ===== src/Lifecycle/Alloc/Laws.antt =====
-- Looking up the allocation, and driving it, keep what survives saves (runtime/ops.go,
-- currentAllocRecord, runDrivingVerb).
use gc_runtime_nomad.Base.{ℕ, zero, suc, not, leb, Option, none, some, List, [], ◌∷◌, String}
use gc_runtime_nomad.Lifecycle.Error.{Result, ok, err, is, alloc_not_ready}
use gc_runtime_nomad.Lifecycle.Types.{Binding, AllocRecord}
use gc_runtime_nomad.Lifecycle.World.{Lifecycle, World, M}
use gc_runtime_nomad.Lifecycle.World.Keeping.{
  Keeps, Closed, keeps_rules, Keeps-bind, Keeps-call, Keeps-attempt, Keeps-observe, Keeps-lift,
  Keeps-if, Keeps-pure, Keeps-raise,
}
use gc_runtime_nomad.Lifecycle.Sidecar.Laws.{load-Keeps}
use gc_runtime_nomad.Lifecycle.Recover.{first_live}
use gc_runtime_nomad.Lifecycle.Recover.Laws.{recover_binding-Keeps}
use gc_runtime_nomad.Lifecycle.Alloc.{
  missing_box, recover_locked, with_lock, found_live, pick_live, resolve, resolve_locked,
  resolve_from, current_alloc_record, current_alloc, run_driving_verb, retryable, retry,
  retry_alloc_exec_ready, look, look_again, await_loop, await_exec_alloc_ready_within,
  await_exec_alloc_ready,
}

module _ {N : Type 0} {P : World N → Type 0} (closed : Closed P) (l : Lifecycle N) where
  missing_box-Keeps : (r : Result Binding) → Keeps P (missing_box l r)
  unfolding missing_box
  missing_box-Keeps (ok b) = search keeps_rules
  missing_box-Keeps (err e) = search keeps_rules

  recover_locked-Keeps :
      (session : String) (prior : Option Binding) → Keeps P (recover_locked l session prior)
  unfolding recover_locked
  recover_locked-Keeps session none = search (keeps_rules, recover_binding-Keeps, missing_box-Keeps)
  recover_locked-Keeps session (some b) =
      search (keeps_rules, recover_binding-Keeps, missing_box-Keeps) depth 8

  pub with_lock-Keeps :
      {A : Type 0} (session : String) (m : M N A) → Keeps P m → Keeps P (with_lock l session m)
  unfolding with_lock
  with_lock-Keeps session m k = Keeps-bind _ _ (Keeps-call _ closed) λ _.
      Keeps-bind _ _ (Keeps-attempt m k)
        λ r. Keeps-bind _ _ (Keeps-observe _ closed) λ _. Keeps-lift r

  pick_live-Keeps : (allocs : List AllocRecord) → Keeps P (pick_live l allocs)
  unfolding pick_live found_live
  pick_live-Keeps [] = search keeps_rules
  pick_live-Keeps (a ∷ allocs) = go (first_live (a ∷ allocs))
    where
      go : (o : Option AllocRecord) → Keeps P (found_live l o)
      go none = search keeps_rules
      go (some found) = search keeps_rules

  resolve-Keeps : (b : Binding) → Keeps P (resolve l b)
  unfolding resolve
  resolve-Keeps b = search (keeps_rules, closed, pick_live-Keeps)

  resolve_locked-Keeps : (session : String) → Keeps P (resolve_locked l session)
  unfolding resolve_locked
  resolve_locked-Keeps session =
      search (keeps_rules, with_lock-Keeps, load-Keeps, recover_locked-Keeps, resolve-Keeps)

  resolve_from-Keeps : (session : String) (o : Option Binding) → Keeps P (resolve_from l session o)
  unfolding resolve_from
  resolve_from-Keeps session none = resolve_locked-Keeps session
  resolve_from-Keeps session (some b) = search (keeps_rules, resolve_locked-Keeps, resolve-Keeps)

  pub current_alloc_record-Keeps : (session : String) → Keeps P (current_alloc_record l session)
  unfolding current_alloc_record
  current_alloc_record-Keeps session = search (keeps_rules, load-Keeps, resolve_from-Keeps)

  pub current_alloc-Keeps : (session : String) → Keeps P (current_alloc l session)
  unfolding current_alloc
  current_alloc-Keeps session = search (keeps_rules, current_alloc_record-Keeps)

  pub run_driving_verb-Keeps :
      (session verb : String) (command : List String)
      → Keeps P (run_driving_verb l session verb command)
  unfolding run_driving_verb
  run_driving_verb-Keeps session verb command =
      search (keeps_rules, closed, current_alloc-Keeps) depth 8

  pub retry-Keeps : {A : Type 0} (left : ℕ) (m : M N A) → Keeps P m → Keeps P (retry l left m)
  unfolding retry
  retry-Keeps zero m k = k
  retry-Keeps (suc left) m k = Keeps-bind _ _ (Keeps-attempt _ k) λ r.
      Keeps-if (not (retryable l r)) _ _ (λ _. Keeps-lift r)
        λ _. Keeps-bind _ _ (Keeps-observe _ closed) λ _. retry-Keeps left m k

  pub retry_alloc_exec_ready-Keeps :
      {A : Type 0} (m : M N A) → Keeps P m → Keeps P (retry_alloc_exec_ready l m)
  unfolding retry_alloc_exec_ready
  retry_alloc_exec_ready-Keeps m k = retry-Keeps 19 m k

  look-Keeps : (r : Result AllocRecord) → Keeps P (look l r)
  unfolding look
  look-Keeps (ok rec) = Keeps-pure _
  look-Keeps (err e) =
      Keeps-if (is alloc_not_ready e) _ _ (λ _. Keeps-pure none) (λ _. Keeps-raise e)

  look_again-Keeps :
      (deadline interval : ℕ) (next : M N String) (o : Option String)
      → Keeps P next
      → Keeps P (look_again l deadline interval next o)
  unfolding look_again
  look_again-Keeps deadline interval next (some alloc) k = Keeps-pure alloc
  look_again-Keeps deadline interval next none k = Keeps-bind _ _ (Keeps-observe _ closed) λ now.
      Keeps-if (leb deadline now) _ _ (λ _. Keeps-raise _)
        λ _. Keeps-bind _ _ (Keeps-observe _ closed) λ _. k

  await_loop-Keeps :
      (fuel deadline interval : ℕ) (session : String)
      → Keeps P (await_loop l fuel deadline interval session)
  unfolding await_loop
  await_loop-Keeps zero deadline interval session = Keeps-raise _
  await_loop-Keeps (suc fuel) deadline interval session =
      Keeps-bind _ _ (Keeps-attempt _ (current_alloc_record-Keeps session)) λ rec.
        Keeps-bind _ _ (look-Keeps rec) λ seen.
          look_again-Keeps deadline interval _ seen
            (await_loop-Keeps fuel deadline interval session)

  pub await_exec_alloc_ready-Keeps : (session : String) → Keeps P (await_exec_alloc_ready l session)
  unfolding await_exec_alloc_ready await_exec_alloc_ready_within
  await_exec_alloc_ready-Keeps session =
      Keeps-bind _ _ (Keeps-observe _ closed) λ now. await_loop-Keeps 361 _ _ session
