-- ===== src/Lifecycle/Doors/Placement.antt =====
-- When a provision succeeds (runtime/ops.go, opProvision, confirmDispatchPlaced).
use gc_runtime_nomad.Base.{ℕ, true, false, some, List, String, lookup, ◌≡◌, In}
use gc_runtime_nomad.Lifecycle.Error.{ok}
use gc_runtime_nomad.Lifecycle.Types.{Binding, AllocRecord}
use gc_runtime_nomad.Lifecycle.World.{Lifecycle, World, json}
use gc_runtime_nomad.Lifecycle.World.Outcomes.{Returns}
use gc_runtime_nomad.Lifecycle.Roster.{is_over}
use gc_runtime_nomad.Lifecycle.Adopt.{adopt_existing}

-- The cluster listed an allocation of the child that has not ended.
abbrev pub IsPlaced : {N : Type 0} → Lifecycle N → String → Type 0
IsPlaced {N = N} l child =
    (before after : N) × (allocs : List AllocRecord) × (idx : ℕ) × (a : AllocRecord)
    × (l.client.list_allocs_for_job child 0 0 before ≡ (ok (allocs, idx), after))
    × In a allocs
    × (is_over a ≡ false)

module _ {N : Type 0} (l : Lifecycle N) where
  -- The cluster placed the child that the session's binding names, when it was read.
  abbrev pub Placed : String → Type 0
  Placed session =
      (b : Binding) × (x : World N) × (lookup session x.bindings ≡ some (json b))
      × IsPlaced l b.child_job_id

  abbrev pub Reused : String → Type 0
  Reused session = (b : Binding) × (x y : World N) × Returns (adopt_existing l session b) x true y
