-- ===== src/Lifecycle/Roster/Complete.antt =====
-- Which sessions are left out of the list (runtime/ops.go, opListRunning and childHasLiveAlloc).
use gc_runtime_nomad.Base.{ℕ, false, some, List, String, ◌≡◌, ◌⊎◌, All, In}
use gc_runtime_nomad.Lifecycle.Error.{ok}
use gc_runtime_nomad.Lifecycle.Types.{Binding, AllocRecord, ChildJob}
use gc_runtime_nomad.Lifecycle.World.{Lifecycle, World}
use gc_runtime_nomad.Lifecycle.Roster.{any_live, candidate}

module _ {N : Type 0} (l : Lifecycle N) where
  -- The child's allocations were read, and none of them lives.
  abbrev pub IsDead : ChildJob → Type 0
  IsDead c =
      (n : N) × (allocs : List AllocRecord) × (index : ℕ) × (n' : N) × (l.client.list_allocs_for_job
          c.id 0 0 n
        ≡ (ok (allocs, index), n'))
      × (any_live allocs ≡ false)

  -- A child that has a name to list is dead, or its name is listed.
  abbrev pub IsAccounted : String → List Binding → List String → ChildJob → Type 0
  IsAccounted prefix bindings names c =
      (name : String) → candidate prefix bindings c ≡ some name → IsDead c ⊎ In name names

  module _ (prefix : String) (bindings : List Binding) where
    Accounted : List ChildJob → List String → Type 0
    Accounted children names = All (IsAccounted prefix bindings names) children
