-- ===== src/Lifecycle/Alive.antt =====
-- runtime/ops.go: is a process of the session's agent running (namedProcessAlive,
-- processListHasAny).
pub mod Observed
use gc_runtime_nomad.Base.{
  ℕ, Bool, true, false, not, ◌||◌, List, [], ◌∷◌, String, ◌==◌, str_eq, trim_space, split, base,
  any_eq, if◌then◌else◌,
}
use gc_runtime_nomad.Lifecycle.Error.{Result, ok, err}
use gc_runtime_nomad.Lifecycle.World.{Lifecycle, World, M, pure, attempt, call, ◌>>=◌}
use gc_runtime_nomad.Lifecycle.Alloc.{exec_task_name, current_alloc}

-- The names that are asked about, each by its base.
unfoldable pub wanted_names : List String → List String
wanted_names [] = []
wanted_names (name ∷ names) =
    let rest = wanted_names names in
    if str_eq (trim_space name) "" then rest else base (trim_space name) ∷ rest

-- One line of the list is one of the names.
unfoldable pub line_has : List String → String → Bool
line_has wanted line =
    let name = trim_space line in
    if str_eq name "" || str_eq name "COMMAND" then false else any_eq (base name) wanted

unfoldable pub any_line : List String → List String → Bool
any_line wanted [] = false
any_line wanted (line ∷ lines) = line_has wanted line || any_line wanted lines

unfoldable pub process_list_has_any : String → List String → Bool
process_list_has_any out wanted = any_line wanted (split 10 out)

abbrev pub process_list_command : List String
process_list_command = "/bin/sh" ∷ "-c" ∷ "ps -eo comm 2>/dev/null || ps -o comm 2>/dev/null" ∷ []

module _ {N : Type 0} (l : Lifecycle N) where
  -- Whether a name was seen, and whether that was observed.
  unfoldable pub observed_in : List String → Result (ℕ × String) → Bool × Bool
  observed_in wanted (err e) = (true, false)
  observed_in wanted (ok (exit_code, out)) =
      if exit_code == 0 then (process_list_has_any out wanted, true) else (true, false)

  unfoldable pub alive_in : List String → String → M N (Bool × Bool)
  alive_in wanted alloc = if str_eq alloc "" then pure (true, false) else do
    answer ← attempt (call (l.client.exec_alloc alloc exec_task_name process_list_command))
    pure (observed_in wanted answer)

  unfoldable pub alive_of : String → List String → M N (Bool × Bool)
  alive_of session [] = pure (true, false)
  alive_of session (name ∷ wanted) = current_alloc l session >>= alive_in (name ∷ wanted)

  unfoldable pub named_process_alive : String → List String → M N (Bool × Bool)
  named_process_alive session names = alive_of session (wanted_names names)
