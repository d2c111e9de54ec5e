-- ===== src/Lifecycle/Adopt/Laws.antt =====
-- Looking at a box that exists keeps what survives saves (runtime/ops.go, classifyAdoption).
use gc_runtime_nomad.Base.{ℕ, ◌-◌, ltb, ◌==◌, String, str_eq}
use gc_runtime_nomad.Lifecycle.Types.{Binding}
use gc_runtime_nomad.Lifecycle.World.{Lifecycle, World}
use gc_runtime_nomad.Lifecycle.World.Keeping.{
  Keeps, Closed, Keeps-bind, Keeps-attempt, Keeps-if, Keeps-pure, Keeps-call, Keeps-observe,
}
use gc_runtime_nomad.Lifecycle.Adopt.{
  probe_agent_alive, live_alloc_id, binding_agent_status, adopt_age_limit, classify_adoption,
}

module _ {N : Type 0} {P : World N → Type 0} (closed : Closed P) (l : Lifecycle N) where
  pub live_alloc_id-Keeps : (b : Binding) → Keeps P (live_alloc_id l b)
  unfolding live_alloc_id
  live_alloc_id-Keeps b = Keeps-bind _ _ (Keeps-attempt _ (Keeps-call _ closed)) λ r. Keeps-pure _

  pub probe_agent_alive-Keeps : (alloc : String) (pid : ℕ) → Keeps P (probe_agent_alive l alloc pid)
  unfolding probe_agent_alive
  probe_agent_alive-Keeps alloc pid = Keeps-bind _ _ (Keeps-call _ closed) λ answer. Keeps-pure _

  status-Keeps : (b : Binding) → Keeps P (binding_agent_status l b)
  unfolding binding_agent_status
  status-Keeps b = Keeps-bind _ _ (live_alloc_id-Keeps b) λ alloc.
      Keeps-if (str_eq alloc "") _ _ (λ _. Keeps-pure _)
        λ _.
          Keeps-bind _ _ (Keeps-attempt _ (probe_agent_alive-Keeps alloc b.agent_pid))
            λ r. Keeps-pure _

  pub classify_adoption-Keeps : (b : Binding) → Keeps P (classify_adoption l b)
  unfolding classify_adoption
  classify_adoption-Keeps b = Keeps-bind _ _ (Keeps-observe _ closed) λ _.
      Keeps-if (b.created_at == 0) _ _ (λ _. Keeps-pure _)
        λ _. Keeps-bind _ _ (Keeps-observe _ closed) λ now.
          Keeps-if (ltb (adopt_age_limit l) (now - b.created_at)) _ _ (λ _. Keeps-pure _)
            λ _. Keeps-bind _ _ (status-Keeps b) λ answer. Keeps-pure _
