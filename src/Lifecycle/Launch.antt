-- ===== src/Lifecycle/Launch.antt =====
-- runtime/ops.go: what the launch's end looks at in the box, and recording the launch
-- (classifyProcessProbe, verifyPaneRunsAgent, capturePanePID, confirmLaunched). What is only
-- written to a log is dropped.
pub mod Fuel
pub mod Laws
use gc_runtime_nomad.Base.{
  ℕ, zero, suc, ◌+◌, Bool, true, false, not, ◌&&◌, ◌||◌, Option, none, some, List, [], ◌∷◌, String,
  ◌==◌, leb, str_eq, starts_with, trim_space, split, base, atoi, if◌then◌else◌,
}
use gc_runtime_nomad.Lifecycle.Error.{Err, message, Result, ok, err}
use gc_runtime_nomad.Lifecycle.Types.{Binding}
use gc_runtime_nomad.Lifecycle.World.{
  Lifecycle, World, M, pure, raise, attempt, annotate, call, observe, ◌>>=◌, ◌>>◌,
}
use gc_runtime_nomad.Lifecycle.Sidecar.{load, save}
use gc_runtime_nomad.Lifecycle.Alloc.{exec_task_name, tmux_session_name, current_alloc}

-- bareShellCommands
unfoldable pub is_bare_shell : String → Bool
is_bare_shell c =
    str_eq c "sh"
    || str_eq c "bash"
    || str_eq c "dash"
    || str_eq c "zsh"
    || str_eq c "ash"
    || str_eq c "ksh"

-- paneRunsAgent
unfoldable pub pane_runs_agent : String → Bool
unfolding is_bare_shell
pane_runs_agent command =
    let c = trim_space command in if str_eq c "" then false else not (is_bare_shell c)

-- A process that says nothing of an agent, by the base of its name.
unfoldable pub is_ambient : String → Bool
unfolding is_bare_shell
is_ambient name =
    str_eq name "sleep"
    || str_eq name "ps"
    || str_eq name "COMMAND"
    || starts_with name "tmux"
    || is_bare_shell name

-- One line of the process list.
unfoldable pub names_agent : String → Bool
unfolding is_ambient
names_agent line =
    let name = trim_space line in
    if str_eq name "" || str_eq name "COMMAND" then false else not (is_ambient (base name))

unfoldable pub any_agent : List String → Bool
any_agent [] = false
any_agent (line ∷ lines) = names_agent line || any_agent lines

-- classifyProcessProbe: whether an agent runs, and whether that could not be measured.
unfoldable pub classify_process_probe : Result (ℕ × String) → Bool × Bool
classify_process_probe (err e) = (true, false)
classify_process_probe (ok (exit_code, out)) =
    if not (exit_code == 0) then (true, true) else (any_agent (split 10 out), false)

-- paneLaunchSettle and paneLaunchPoll, in nanoseconds.
abbrev pub pane_launch_settle : ℕ
pane_launch_settle = 3_000_000_000

abbrev pub pane_launch_poll : ℕ
pane_launch_poll = 500_000_000

abbrev pub first_line : List String → String
first_line [] = ""
first_line (line ∷ _) = line

module _ {N : Type 0} (l : Lifecycle N) where
  unfoldable pub pane_current_command : String → M N String
  pane_current_command alloc = do
    (exit_code, out) ← call (
        l.client.exec_alloc alloc exec_task_name (
          "tmux" ∷ "list-panes" ∷ "-t" ∷ tmux_session_name ∷ "-F" ∷ "#{pane_current_command}" ∷ []))
    if not (exit_code == 0)
        then raise (message "tmux list-panes exited")
        else pure (trim_space (first_line (split 10 (trim_space out))))

  unfoldable pub box_runs_an_agent : String → M N (Bool × Bool)
  box_runs_an_agent alloc = do
    r ← attempt (
        call (
          l.client.exec_alloc alloc exec_task_name
            ("/bin/sh" ∷ "-c" ∷ "ps -eo comm 2>/dev/null || ps -o comm 2>/dev/null" ∷ [])))
    pure (classify_process_probe r)

  -- What is left to do after the process probe and the pane's command.
  unfoldable pub settle_again : ℕ → (String → M N (Unit {0})) → String → M N (Unit {0})
  settle_again deadline next last = do
    now ← observe l.clock
    if not (leb deadline now)
        then (observe (λ n. (tt, l.sleep pane_launch_poll n)) >> next last)
        else if str_eq last ""
        then pure tt
        else raise (message "the pane runs no agent")

  unfoldable pub pane_answer :
      ℕ → (String → M N (Unit {0})) → String → Result String → M N (Unit {0})
  pane_answer deadline next last (err e) = settle_again deadline next last
  pane_answer deadline next last (ok command) =
      if pane_runs_agent command then pure tt else settle_again deadline next command

  unfoldable pub verify_loop : ℕ → ℕ → String → String → M N (Unit {0})
  verify_loop zero deadline alloc last = raise (message "out of fuel")
  verify_loop (suc fuel) deadline alloc last = do
    (runs, unmeasurable) ← box_runs_an_agent alloc
    if unmeasurable
        then raise (message "cannot tell whether an agent is running")
        else if runs
        then pure tt
        else do
          pane ← attempt (pane_current_command alloc)
          pane_answer deadline (verify_loop fuel deadline alloc) last pane

  -- Seven looks span the three seconds.
  unfoldable pub verify_alloc : Result String → M N (Unit {0})
  verify_alloc (err e) = pure tt
  verify_alloc (ok alloc) = do
    now ← observe l.clock
    verify_loop 7 (now + pane_launch_settle) alloc ""

  unfoldable pub verify_pane_runs_agent : String → M N (Unit {0})
  verify_pane_runs_agent session = attempt (current_alloc l session) >>= verify_alloc

  -- The in-box gc is asked for its worker surface and, if the host's commit is known, its version.
  unfoldable pub probe_version : String → Result (ℕ × String) → M N (Unit {0})
  probe_version alloc (err e) = pure tt
  probe_version alloc (ok _) = if not l.host_gc_known then pure tt else do
    attempt (call (l.client.exec_alloc alloc exec_task_name l.in_box_version_command))
    pure tt

  unfoldable pub probe_box_gc : Result String → M N (Unit {0})
  probe_box_gc (err e) = pure tt
  probe_box_gc (ok alloc) = do
    surface ← attempt (call (l.client.exec_alloc alloc exec_task_name l.in_box_probe_command))
    probe_version alloc surface

  unfoldable pub warn_if_box_gc_cannot_claim : String → M N (Unit {0})
  warn_if_box_gc_cannot_claim session = attempt (current_alloc l session) >>= probe_box_gc

  unfoldable pub parsed_pid : Option ℕ → M N ℕ
  parsed_pid none = raise (message "parsing pane pid")
  parsed_pid (some pid) = pure pid

  unfoldable pub capture_pane_pid : String → M N ℕ
  capture_pane_pid session = do
    alloc ← current_alloc l session
    (exit_code, out) ← call (
        l.client.exec_alloc alloc exec_task_name
          ("tmux" ∷ "list-panes" ∷ "-t" ∷ tmux_session_name ∷ "-F" ∷ "#{pane_pid}" ∷ []))
    if not (exit_code == 0)
        then raise (message "tmux list-panes exited")
        else parsed_pid (atoi (trim_space out))

  abbrev pub or_zero : Result ℕ → ℕ
  or_zero (ok pid) = pid
  or_zero (err e) = 0

  -- A value that is empty leaves the field as it is.
  abbrev pub overwrite : String → String → String
  overwrite value old = if str_eq value "" then old else value

  unfoldable pub launched_binding : ℕ → String → String → String → Binding → Binding
  launched_binding pid work_dir command lifecycle b = record b {
    launched = true;
    agent_pid = pid;
    work_dir = overwrite work_dir b.work_dir;
    provider_command = overwrite command b.provider_command;
    lifecycle = overwrite lifecycle b.lifecycle;
  }

  unfoldable pub confirm_from : ℕ → String → String → String → Option Binding → M N (Unit {0})
  confirm_from pid work_dir command lifecycle none =
      raise (message "binding vanished before launch could be recorded")
  confirm_from pid work_dir command lifecycle (some b) =
      save l (launched_binding pid work_dir command lifecycle b)

  unfoldable pub confirm_launched : String → String → String → String → M N (Unit {0})
  confirm_launched session work_dir command lifecycle = do
    attempt (verify_pane_runs_agent session)
    warn_if_box_gc_cannot_claim session
    pid ← attempt (capture_pane_pid session)
    b ← load l session
    confirm_from (or_zero pid) work_dir command lifecycle b
