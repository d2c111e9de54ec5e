-- ===== src/Lifecycle/Recover/Laws.antt =====
-- The recovery keeps what survives saves (runtime/ops.go, recoverBinding, liveChild).
use gc_runtime_nomad.Base.{ℕ, Bool, Option, none, some, List, String}
use gc_runtime_nomad.Lifecycle.Error.{Result, ok, err}
use gc_runtime_nomad.Lifecycle.Types.{Binding, AllocRecord}
use gc_runtime_nomad.Lifecycle.World.{Lifecycle, World}
use gc_runtime_nomad.Lifecycle.World.Keeping.{Keeps, Closed, keeps_rules}
use gc_runtime_nomad.Lifecycle.Sidecar.Laws.{load-Keeps, save-Keeps}
use gc_runtime_nomad.Lifecycle.Recover.{
  recover_binding, find_orphan_by_nonce, live_pick, verify_live, live_binding, live_recovered,
  live_from, live_child, first_live,
}

module _ {N : Type 0} {P : World N → Type 0} (closed : Closed P) (l : Lifecycle N) where
  pub recover_binding-Keeps :
      (session : String) (prior : Option Binding) → Keeps P (recover_binding l session prior)
  unfolding recover_binding
  recover_binding-Keeps session prior = search (keeps_rules, closed, save-Keeps) depth 8

  pub find_orphan_by_nonce-Keeps :
      (session nonce : String) → Keeps P (find_orphan_by_nonce l session nonce)
  unfolding find_orphan_by_nonce
  find_orphan_by_nonce-Keeps session nonce = search (keeps_rules, closed)

  live_pick-Keeps :
      (b : Binding) (recovered : Bool) (o : Option AllocRecord)
      → Keeps P (live_pick l b recovered o)
  unfolding live_pick
  live_pick-Keeps b recovered none = search keeps_rules
  live_pick-Keeps b recovered (some a) = search keeps_rules

  verify_live-Keeps :
      (b : Binding) (recovered : Bool) (r : Result (List AllocRecord × ℕ))
      → Keeps P (verify_live l b recovered r)
  unfolding verify_live
  verify_live-Keeps b recovered (err e) = search keeps_rules
  verify_live-Keeps b recovered (ok (allocs, _)) = live_pick-Keeps b recovered (first_live allocs)

  live_binding-Keeps : (b : Binding) (recovered : Bool) → Keeps P (live_binding l b recovered)
  unfolding live_binding
  live_binding-Keeps b recovered = search (keeps_rules, closed, verify_live-Keeps) depth 8

  live_recovered-Keeps : (r : Result Binding) → Keeps P (live_recovered l r)
  unfolding live_recovered
  live_recovered-Keeps (ok b) = live_binding-Keeps b _
  live_recovered-Keeps (err e) = search keeps_rules

  live_from-Keeps : (session : String) (o : Option Binding) → Keeps P (live_from l session o)
  unfolding live_from
  live_from-Keeps session none = search (keeps_rules, recover_binding-Keeps, live_recovered-Keeps)
  live_from-Keeps session (some b) =
      search (keeps_rules, recover_binding-Keeps, live_recovered-Keeps, live_binding-Keeps) depth 8

  pub live_child-Keeps : (session : String) → Keeps P (live_child l session)
  unfolding live_child
  live_child-Keeps session = search (keeps_rules, load-Keeps, live_from-Keeps)
