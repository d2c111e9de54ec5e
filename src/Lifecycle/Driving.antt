-- ===== src/Lifecycle/Driving.antt =====
-- runtime/ops.go: the verbs that drive the tmux session in a box (opNudge, opPeek, opInterrupt,
-- opSendKeys, opClearScrollback, bestEffort). A count of lines that is not positive is 0.
pub mod Delivery
use gc_runtime_nomad.Base.{ℕ, not, List, [], ◌∷◌, ◌++◌, String, ◌==◌, ltb, itoa, if◌then◌else◌}
use Prim.Native.String
use gc_runtime_nomad.Lifecycle.Error.{message, is, session_not_found, Result, ok, err}
use gc_runtime_nomad.Lifecycle.World.{
  Lifecycle, World, M, pure, raise, attempt, annotate, call, ◌>>=◌,
}
use gc_runtime_nomad.Lifecycle.Alloc.{
  exec_task_name, tmux_session_name, current_alloc, run_driving_verb,
}

-- The text is an argument of the script and no part of it.
unfoldable pub nudge_command : String → List String
nudge_command text =
    "/bin/sh" ∷ "-c" ∷ "tmux send-keys -t \"$1\" -l -- \"$2\" && tmux send-keys -t \"$1\" Enter"
    ∷ "nudge" ∷ tmux_session_name ∷ text ∷ []

unfoldable pub peek_command : ℕ → List String
unfolding itoa
peek_command lines =
    "tmux"
    ∷ "capture-pane"
    ∷ "-t"
    ∷ tmux_session_name
    ∷ "-p"
    ∷ (if ltb 0 lines then "-S" ∷ String.◌++◌ "-" (itoa lines) ∷ [] else [])

module _ {N : Type 0} (l : Lifecycle N) where
  unfoldable pub settle : Result (Unit {0}) → M N (Unit {0})
  settle (ok done) = pure done
  settle (err e) = if is session_not_found e then pure tt else raise e

  -- bestEffort
  unfoldable pub best_effort : M N (Unit {0}) → M N (Unit {0})
  best_effort m = attempt m >>= settle

  unfoldable pub op_nudge : String → String → M N (Unit {0})
  op_nudge session text = best_effort (run_driving_verb l session "nudge" (nudge_command text))

  unfoldable pub op_interrupt : String → M N (Unit {0})
  op_interrupt session = best_effort (
      run_driving_verb l session "interrupt"
        ("tmux" ∷ "send-keys" ∷ "-t" ∷ tmux_session_name ∷ "C-c" ∷ []))

  unfoldable pub op_send_keys : String → List String → M N (Unit {0})
  op_send_keys session keys =
      run_driving_verb l session "send-keys"
        ("tmux" ∷ "send-keys" ∷ "-t" ∷ tmux_session_name ∷ keys)

  unfoldable pub op_clear_scrollback : String → M N (Unit {0})
  op_clear_scrollback session =
      run_driving_verb l session "clear-scrollback"
        ("tmux" ∷ "clear-history" ∷ "-t" ∷ tmux_session_name ∷ [])

  unfoldable pub op_peek : String → ℕ → M N String
  op_peek session lines = do
    alloc ← annotate "peeking session" (current_alloc l session)
    (exit_code, out) ←
        annotate "peeking session"
          (call (l.client.exec_alloc alloc exec_task_name (peek_command lines)))
    if not (exit_code == 0)
        then raise (message "peeking session: tmux capture-pane exited")
        else pure out
