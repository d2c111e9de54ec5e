-- ===== src/Lifecycle/Roster/Sound.antt =====
-- What a listed session stands for (runtime/ops.go, opListRunning).
use gc_runtime_nomad.Base.{value_of, true, false, ◌||◌, List, String, ◌≡◌, In, str_eq, starts_with}
use gc_runtime_nomad.Lifecycle.Types.{Binding, ChildJob}
use gc_runtime_nomad.Lifecycle.World.{Lifecycle, World}

-- A binding that is launched names the child.
abbrev pub IsLaunched : String → List Binding → Type 0
IsLaunched child bindings =
    (b : Binding) × In b bindings × (b.launched ≡ true) × (str_eq b.child_job_id child ≡ true)

-- `name` is the session of a child of the list that is not terminal, that a launched binding names,
-- and the name starts with the prefix.
abbrev pub IsRunningChild : String → List Binding → List ChildJob → String → Type 0
IsRunningChild prefix bindings children name =
    (c : ChildJob) × In c children
    × (c.terminal ≡ false)
    × IsLaunched c.id bindings
    × (value_of "gc_session" c.meta ≡ name)
    × (str_eq name "" ≡ false)
    × ((str_eq prefix "" || starts_with name prefix) ≡ true)
