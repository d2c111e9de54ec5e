-- ===== src/Lifecycle/Doors/Laws.antt =====
-- What the doors keep (runtime/ops.go, opProvision, opStart, opRelaunch, opExec).
use gc_runtime_nomad.Base.{ℕ, true, false, Option, none, some, List, String}
use gc_runtime_nomad.Lifecycle.Types.{Binding, Tombstone, StageConfig}
use gc_runtime_nomad.Lifecycle.World.{Lifecycle, World, M, tombstoned, emit}
use gc_runtime_nomad.Lifecycle.World.Keeping.{
  Keeps, Closed, Keeps-bind, Keeps-call, Keeps-observe, Keeps-if, Keeps-pure, Keeps-raise,
  Keeps-annotate,
}
use gc_runtime_nomad.Lifecycle.Sidecar.{tombstone}
use gc_runtime_nomad.Lifecycle.Sidecar.Laws.{disk-Keeps}
use gc_runtime_nomad.Lifecycle.Recover.Laws.{live_child-Keeps}
use gc_runtime_nomad.Lifecycle.Alloc.{with_lock}
use gc_runtime_nomad.Lifecycle.Alloc.Laws.{with_lock-Keeps, current_alloc-Keeps}
use gc_runtime_nomad.Lifecycle.Stop.{op_stop}
use gc_runtime_nomad.Lifecycle.Dispatch.{dispatch}
use gc_runtime_nomad.Lifecycle.Launch.Laws.{confirm_launched-Keeps}
use gc_runtime_nomad.Lifecycle.Adopt.{
  AdoptPath, adopt_reuse, adopt_reject, adopt_self_heal_launched, adopt_reap, reap_child,
  adopt_path, adopt_existing,
}
use gc_runtime_nomad.Lifecycle.Adopt.Laws.{live_alloc_id-Keeps, classify_adoption-Keeps}
use gc_runtime_nomad.Lifecycle.Stage.Laws.{stage_tracked-Keeps}
use gc_runtime_nomad.Wire.Texts.{separable_transport_launch}
use gc_runtime_nomad.Lifecycle.Launching.{zero_config}
use gc_runtime_nomad.Lifecycle.Launching.Laws.{mark_launched-Keeps, mark_transport_launched-Keeps}
use gc_runtime_nomad.Lifecycle.Placing.Laws.{confirm_dispatch_placed-Keeps}
use gc_runtime_nomad.Lifecycle.Doors.{
  provision_fresh, provision_from, op_provision_with_config, start_staged, start_fresh, start_from,
  op_start_with_config, op_relaunch, exec_plain, exec_transport, op_exec,
}

-- What an invariant of the doors must survive: `Closed`, tombstones, a stop and a dispatch.
pub record Passable {N : Type 0} (l : Lifecycle N) (P : World N → Type 0) : Type 0 where
  pub closed : Closed P
  pub burying : (t : Tombstone) → Keeps P (emit (tombstoned t))
  pub stopping : (session : String) → Keeps P (op_stop l session)
  pub dispatching : (session image : String) → Keeps P (dispatch l session image)

module _ {N : Type 0} {P : World N → Type 0} (closed : Closed P) (l : Lifecycle N) where
  pub op_relaunch-Keeps : (session : String) → Keeps P (op_relaunch l session)
  unfolding op_relaunch
  op_relaunch-Keeps session =
      Keeps-bind _ _ (Keeps-annotate _ _ (current_alloc-Keeps closed l session))
        λ _. mark_launched-Keeps closed l session zero_config

  exec_plain-Keeps :
      (session : String) (command : List String) → Keeps P (exec_plain l session command)
  unfolding exec_plain
  exec_plain-Keeps session command =
      Keeps-bind _ _ (current_alloc-Keeps closed l session)
        λ alloc. Keeps-bind _ _ (Keeps-annotate _ _ (Keeps-call _ closed)) λ answer. Keeps-pure _

  exec_transport-Keeps :
      (session : String) (transport : List String) → Keeps P (exec_transport l session transport)
  unfolding exec_transport
  exec_transport-Keeps session transport =
      Keeps-bind _ _ (Keeps-annotate _ _ (mark_transport_launched-Keeps closed l session transport))
        λ _. Keeps-pure _

  pub op_exec-Keeps :
      (session : String) (command : List String) → Keeps P (op_exec l session command)
  unfolding op_exec
  op_exec-Keeps session command = door (separable_transport_launch command)
    where
      door :
          (o : Option (List String))
          → Keeps P (elim o as (λ _. M N (ℕ × String)) [
            | none ↦ exec_plain l session command
            | some transport ↦ with_lock l session (exec_transport l session transport)
          ])
      door none = exec_plain-Keeps session command
      door (some transport) =
          with_lock-Keeps closed l session _ (exec_transport-Keeps session transport)

module _ {N : Type 0} (l : Lifecycle N) {P : World N → Type 0} (passable : Passable l P) where
  closed : Closed P
  closed = passable.closed

  tombstone-Keeps : (t : Tombstone) → Keeps P (tombstone l t)
  unfolding tombstone
  tombstone-Keeps t = Keeps-bind _ _ (disk-Keeps closed l _ _) λ _.
      Keeps-bind _ _ (disk-Keeps closed l _ _)
        λ _. Keeps-bind _ _ (disk-Keeps closed l _ _) λ _. passable.burying t

  reap_child-Keeps :
      (session : String) (b : Binding) (why : String) → Keeps P (reap_child l session b why)
  unfolding reap_child
  reap_child-Keeps session b why = Keeps-bind _ _ (live_alloc_id-Keeps closed l b) λ alloc.
      Keeps-bind _ _ (Keeps-observe _ closed) λ now.
        Keeps-bind _ _ (Keeps-observe _ closed) λ written.
          Keeps-bind _ _ (Keeps-annotate _ _ (tombstone-Keeps _))
            λ _. Keeps-annotate _ _ (passable.stopping session)

  adopt_path-Keeps :
      (session : String) (b : Binding) (path : AdoptPath) (why : String)
      → Keeps P (adopt_path l session b (path, why))
  unfolding adopt_path
  adopt_path-Keeps session b adopt_reuse why = Keeps-pure true
  adopt_path-Keeps session b adopt_reject why = Keeps-raise _
  adopt_path-Keeps session b adopt_self_heal_launched why =
      Keeps-bind _ _ (confirm_launched-Keeps closed l session _ _ _) λ _. Keeps-raise _
  adopt_path-Keeps session b adopt_reap why =
      Keeps-bind _ _ (reap_child-Keeps session b why) λ _. Keeps-pure false

  adopt_existing-Keeps : (session : String) (b : Binding) → Keeps P (adopt_existing l session b)
  unfolding adopt_existing
  adopt_existing-Keeps session b =
      Keeps-bind _ _ (classify_adoption-Keeps closed l b)
        λ answer. adopt_path-Keeps session b answer.0 answer.1

  provision_fresh-Keeps :
      (session : String) (cfg : StageConfig) → Keeps P (provision_fresh l session cfg)
  unfolding provision_fresh
  provision_fresh-Keeps session cfg = Keeps-bind _ _ (passable.dispatching session _) λ _.
      Keeps-bind _ _ (confirm_dispatch_placed-Keeps closed l session)
        λ _. stage_tracked-Keeps closed l session cfg

  provision_from-Keeps :
      (session : String) (cfg : StageConfig) (o : Option Binding)
      → Keeps P (provision_from l session cfg o)
  unfolding provision_from
  provision_from-Keeps session cfg none = provision_fresh-Keeps session cfg
  provision_from-Keeps session cfg (some b) =
      Keeps-bind _ _ (adopt_existing-Keeps session b) λ reuse.
        Keeps-if reuse _ _ (λ _. stage_tracked-Keeps closed l session cfg)
          (λ _. provision_fresh-Keeps session cfg)

  pub op_provision-Keeps :
      (session : String) (cfg : StageConfig) → Keeps P (op_provision_with_config l session cfg)
  unfolding op_provision_with_config
  op_provision-Keeps session cfg =
      with_lock-Keeps closed l session _
        (Keeps-bind _ _ (live_child-Keeps closed l session) (provision_from-Keeps session cfg))

  start_staged-Keeps : (session : String) (cfg : StageConfig) → Keeps P (start_staged l session cfg)
  unfolding start_staged
  start_staged-Keeps session cfg =
      Keeps-bind _ _ (stage_tracked-Keeps closed l session cfg)
        λ _. mark_launched-Keeps closed l session cfg

  start_fresh-Keeps : (session : String) (cfg : StageConfig) → Keeps P (start_fresh l session cfg)
  unfolding start_fresh
  start_fresh-Keeps session cfg =
      Keeps-bind _ _ (passable.dispatching session _) λ _. start_staged-Keeps session cfg

  start_from-Keeps :
      (session : String) (cfg : StageConfig) (o : Option Binding)
      → Keeps P (start_from l session cfg o)
  unfolding start_from
  start_from-Keeps session cfg none = start_fresh-Keeps session cfg
  start_from-Keeps session cfg (some b) = Keeps-bind _ _ (adopt_existing-Keeps session b) λ reuse.
      Keeps-if reuse _ _ (λ _. start_staged-Keeps session cfg) (λ _. start_fresh-Keeps session cfg)

  pub op_start-Keeps :
      (session : String) (cfg : StageConfig) → Keeps P (op_start_with_config l session cfg)
  unfolding op_start_with_config
  op_start-Keeps session cfg =
      with_lock-Keeps closed l session _
        (Keeps-bind _ _ (live_child-Keeps closed l session) (start_from-Keeps session cfg))
