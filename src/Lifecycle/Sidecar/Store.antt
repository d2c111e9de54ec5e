-- ===== src/Lifecycle/Sidecar/Store.antt =====
-- The sidecar directory as an abstract store (runtime/sidecar.go: load, save, remove).
use gc_runtime_nomad.Base.{
  Option, none, some, List, [], ◌∷◌, String, lookup, ◌≡◌, refl, sym, ap, ◌∙◌, subst, lookup-insert,
  lookup-erase, str_eq, if◌then◌else◌,
}
use gc_runtime_nomad.Lifecycle.Error.{Result, ok, err}
use gc_runtime_nomad.Lifecycle.Types.{Binding}
use gc_runtime_nomad.Lifecycle.World.{Lifecycle, FileBody, json, World, M, pure, continue, ◌>>=◌}
use gc_runtime_nomad.Lifecycle.World.Outcomes.{Returns, pure-Returns, bind-Returns}
use gc_runtime_nomad.Lifecycle.Sidecar.{load, save, remove}
use gc_runtime_nomad.Lifecycle.Sidecar.Failures.{
  FailsClean, load-Reads, load-FailsClean, save-FailsClean, remove-FailsClean,
}
use gc_runtime_nomad.Lifecycle.Sidecar.RoundTrip.{held, load-Returns, save-Returns, remove-Returns}

-- The specification's state: what is stored for each session.
abbrev pub Store : Type 0
Store = String → Option FileBody

abbrev pub view : {N : Type 0} → World N → Store
view w session = lookup session w.bindings

pub data StoreOp : Type 0 where
  load_op remove_op : String → StoreOp
  save_op : Binding → StoreOp

-- What an operation does to the store, and what a load of it answers.
abbrev pub apply : StoreOp → Store → Store
apply (load_op session) store = store
apply (save_op b) store = λ key. if str_eq b.session_name key then some (json b) else store key
apply (remove_op session) store = λ key. if str_eq session key then none else store key

abbrev pub IsAnswer : StoreOp → Option Binding → Store → Type 0
IsAnswer (load_op session) o store = store session ≡ held o
IsAnswer (save_op b) o store = Unit
IsAnswer (remove_op session) o store = Unit

-- Each operation that succeeds answers from the store and changes it; one that fails leaves it.
abbrev pub Follows : List StoreOp → List (Result (Option Binding)) → Store → Store → Type 0
Follows [] [] before after = after ≡ before
Follows [] (r ∷ answers) before after = ⊥
Follows (op ∷ ops) [] before after = ⊥
Follows (op ∷ ops) (ok o ∷ answers) before after =
    IsAnswer op o before × Follows ops answers (apply op before) after
Follows (op ∷ ops) (err e ∷ answers) before after = Follows ops answers before after

module _ {N : Type 0} (l : Lifecycle N) where
  -- One operation of the program, and a sequence of them with the answers.
  unfoldable pub perform : StoreOp → M N (Option Binding)
  perform (load_op session) = load l session
  perform (save_op b) = save l b >>= λ _. pure none
  perform (remove_op session) = remove l session >>= λ _. pure none

  unfoldable pub perform_all : List StoreOp → World N → List (Result (Option Binding)) × World N
  perform_all [] w = ([], w)
  perform_all (op ∷ ops) w =
      let (r, v) = perform op w in let (answers, u) = perform_all ops v in (r ∷ answers, u)

  done-Returns :
      (m : M N (Unit {0})) (o : Option Binding) (w v : World N)
      → Returns (m >>= λ _. pure none) w o v
      → Returns m w tt v
  done-Returns m o w v p =
      bind-Returns _ _ _ _ _ p
        λ u x ran rest. subst (λ y. Returns m w tt y) ((pure-Returns _ _ _ _ rest).1) ran

  done-FailsClean :
      (m : M N (Unit {0}))
      → FailsClean l m
      → FailsClean l (m >>= λ _. pure {A = Option Binding} none)
  unfolding ◌>>=◌
  done-FailsClean m clean w v e p = parts (m w) refl p
    where
      parts :
          (r : Result (Unit {0}) × World N)
          → m w ≡ r
          → continue (λ _. pure {A = Option Binding} none) r ≡ (err e, v)
          → v.bindings ≡ w.bindings
      parts (ok u, x) ran q = absurd (cc (ap (λ y. y.0) q))
      parts (err f, x) ran q = ap (λ y. y.1.bindings) (sym q) ∙ clean w x f ran

  perform-FailsClean : (op : StoreOp) → FailsClean l (perform op)
  unfolding perform
  perform-FailsClean (load_op session) = load-FailsClean l session
  perform-FailsClean (save_op b) = done-FailsClean _ (save-FailsClean l b)
  perform-FailsClean (remove_op session) = done-FailsClean _ (remove-FailsClean l session)

  -- A success, by the specification.
  perform-Returns :
      (op : StoreOp) (o : Option Binding) (w v : World N)
      → Returns (perform op) w o v
      → IsAnswer op o (view w) × (view v ≡ apply op (view w))
  unfolding perform
  perform-Returns (load_op session) o w v p = (
    load-Returns l session o w v p,
    λ i key. lookup key ((ap (λ r. r.1.bindings) (sym p) ∙ load-Reads l session w) i),
  )
  perform-Returns (save_op b) o w v p = (
    tt,
    λ i key.
        (ap (lookup key) (save-Returns l b tt w v (done-Returns _ o w v p))
            ∙ lookup-insert b.session_name key (json b) w.bindings)
          i,
  )
  perform-Returns (remove_op session) o w v p = (
    tt,
    λ i key.
        (ap (lookup key) (remove-Returns l session tt w v (done-Returns _ o w v p))
            ∙ lookup-erase session key w.bindings)
          i,
  )

  follows :
      (op : StoreOp) (ops : List StoreOp) (answers : List (Result (Option Binding))) (w v : World N)
      (after : Store) (r : Result (Option Binding))
      → perform op w ≡ (r, v)
      → Follows ops answers (view v) after
      → Follows (op ∷ ops) (r ∷ answers) (view w) after
  follows op ops answers w v after (ok o) ran rest =
      let (answered, changed) = perform-Returns op o w v ran in
      (answered, subst (λ s. Follows ops answers s after) changed rest)
  follows op ops answers w v after (err e) ran rest =
      subst (λ s. Follows ops answers s after)
        (ap (λ files key. lookup key files) (perform-FailsClean op w v e ran)) rest

-- Whatever the disk fails and when, any sequence of loads, saves and removals of the sidecar behaves
-- as the abstract store, a function from sessions to what is stored for them: a save that succeeds
-- stores its binding under the binding's session, a removal that succeeds takes away the session's
-- entry, neither changes another session's, a load that succeeds answers the binding that is stored,
-- or none, and an operation that fails leaves the store as it was.
pub perform_all-Follows :
    {N : Type 0} (l : Lifecycle N) (ops : List StoreOp) (w : World N)
    → Follows ops (perform_all l ops w).0 (view w) (view (perform_all l ops w).1)
unfolding perform_all
perform_all-Follows l [] w = refl
perform_all-Follows l (op ∷ ops) w =
    follows l op ops _ w (perform l op w).1 _ (perform l op w).0 refl
      (perform_all-Follows l ops (perform l op w).1)
