-- ===== src/Lifecycle/Alive/Observed.antt =====
-- When a session's agent is taken for dead by its process names (runtime/ops.go,
-- namedProcessAlive).
use gc_runtime_nomad.Base.{List, String, ◌≡◌, trim_space, split, base, In}
use gc_runtime_nomad.Lifecycle.Error.{ok}
use gc_runtime_nomad.Lifecycle.World.{Lifecycle, World}
use gc_runtime_nomad.Lifecycle.Alloc.{exec_task_name}
use gc_runtime_nomad.Lifecycle.Alive.{process_list_command}

-- No process in the list has one of the names, each by the base of its path.
abbrev pub Unlisted : List String → String → Type 0
Unlisted names out =
    (line name : String)
    → In line (split 10 out)
    → (trim_space line ≡ "" → ⊥)
    → (trim_space line ≡ "COMMAND" → ⊥)
    → In name names
    → (trim_space name ≡ "" → ⊥)
    → base (trim_space line) ≡ base (trim_space name)
    → ⊥

-- The list of the box's processes was read, with exit code 0, and none of them has a name.
abbrev pub IsObserved : {N : Type 0} → Lifecycle N → List String → Type 0
IsObserved {N = N} l names =
    (alloc out : String) × (before after : N) × (l.client.exec_alloc alloc exec_task_name
        process_list_command before
      ≡ (ok (0, out), after))
    × Unlisted names out
