-- ===== src/Lifecycle/Roster/Laws.antt =====
-- Listing the running sessions keeps what survives saves (runtime/ops.go, opListRunning).
use gc_runtime_nomad.Base.{Option, none, some, List, [], ◌∷◌, String, Dict}
use gc_runtime_nomad.Lifecycle.Types.{Binding, ChildJob}
use gc_runtime_nomad.Lifecycle.World.{Lifecycle, World, FileBody, json, garbage, M}
use gc_runtime_nomad.Lifecycle.World.Keeping.{
  Keeps, Closed, Keeps-bind, Keeps-call, Keeps-attempt, Keeps-pure, Keeps-raise, Keeps-gets,
  Keeps-annotate,
}
use gc_runtime_nomad.Lifecycle.Sidecar.{read_all, list}
use gc_runtime_nomad.Lifecycle.Sidecar.Laws.{disk-Keeps}
use gc_runtime_nomad.Lifecycle.Roster.{
  child_has_live_alloc, candidate, listed, running_names, op_list_running,
}

module _ {N : Type 0} {P : World N → Type 0} (closed : Closed P) (l : Lifecycle N) where
  read_all-Keeps : (files : Dict FileBody) → Keeps P (read_all l files)
  unfolding read_all
  read_all-Keeps [] = Keeps-pure []
  read_all-Keeps ((session, json b) ∷ files) =
      Keeps-bind _ _ (disk-Keeps closed l _ _)
        λ _. Keeps-bind _ _ (read_all-Keeps files) λ rest. Keeps-pure _
  read_all-Keeps ((session, garbage) ∷ files) =
      Keeps-bind _ _ (disk-Keeps closed l _ _) λ _. Keeps-raise _

  list-Keeps : Keeps P (list l)
  unfolding list
  list-Keeps =
      Keeps-bind _ _ (disk-Keeps closed l _ _)
        λ _. Keeps-bind _ _ (Keeps-gets _) λ files. read_all-Keeps files

  listed-Keeps :
      (o : Option String) (child : String) (next : M N (List String))
      → Keeps P next
      → Keeps P (listed l o child next)
  unfolding listed child_has_live_alloc
  listed-Keeps none child next k = k
  listed-Keeps (some name) child next k =
      Keeps-bind _ _ (Keeps-attempt _ (Keeps-bind _ _ (Keeps-call _ closed) λ answer. Keeps-pure _))
        λ live. Keeps-bind _ _ k λ names. Keeps-pure _

  running_names-Keeps :
      (prefix : String) (bindings : List Binding) (children : List ChildJob)
      → Keeps P (running_names l prefix bindings children)
  unfolding running_names
  running_names-Keeps prefix bindings [] = Keeps-pure []
  running_names-Keeps prefix bindings (c ∷ children) =
      listed-Keeps (candidate prefix bindings c) c.id _
        (running_names-Keeps prefix bindings children)

  pub op_list_running-Keeps : (prefix : String) → Keeps P (op_list_running l prefix)
  unfolding op_list_running
  op_list_running-Keeps prefix =
      Keeps-bind _ _ (Keeps-annotate _ _ (Keeps-call _ closed)) λ children.
        Keeps-bind _ _ list-Keeps λ bindings.
          Keeps-bind _ _ (running_names-Keeps prefix bindings children) λ names. Keeps-pure _
