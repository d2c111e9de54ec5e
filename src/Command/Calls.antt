-- ===== src/Command/Calls.antt =====
-- Calls of the program as operations (runtime/main.go, run).
use gc_runtime_nomad.Base.{List, [], ◌∷◌, String, ◌≡◌, ◌⊎◌}
use gc_runtime_nomad.Lifecycle.World.{Lifecycle, World}
use gc_runtime_nomad.Lifecycle.Sessions.{Operation, after}
use gc_runtime_nomad.Command.{Setup, run_command}

-- A call of the program: the operation, the further arguments, and what stands on stdin.
abbrev pub Call : Type 0
Call = String × List String × String

-- The world after a sequence of calls.
abbrev pub run_calls : {N : Type 0} → Setup → Lifecycle N → List Call → World N → World N
run_calls setup l [] w = w
run_calls setup l ((op, rest, stdin) ∷ calls) w =
    run_calls setup l calls (run_command setup l op rest stdin w).1

module _ {N : Type 0} (l : Lifecycle N) where
  -- Nothing was done, or one operation.
  abbrev Stepped : World N → World N → Type 0
  Stepped w v = (v ≡ w) ⊎ ((operation : Operation) × (v ≡ after l operation w))
