-- ===== src/Lifecycle/Sessions/Order.antt =====
-- The order of writes and requests over any sequence of operations (runtime/main.go, runtime/ops.go).
use gc_runtime_nomad.Base.{ℕ, List, [], ◌∷◌, String, ◌≡◌, subst, sym, ◌==◌, not, str_eq}
use gc_runtime_nomad.Lifecycle.Error.{Result, ok, err, is, session_not_found}
use gc_runtime_nomad.Lifecycle.Types.{Tombstone}
use gc_runtime_nomad.Lifecycle.World.{Lifecycle, World, M, tombstoned, dispatch_sent, emit, ◌>>=◌}
use gc_runtime_nomad.Lifecycle.World.Keeping.{
  Keeps, Closed, Keeps-bind, Keeps-call, Keeps-attempt, Keeps-if, Keeps-pure, Keeps-raise,
  Keeps-annotate,
}
use gc_runtime_nomad.Lifecycle.Alloc.Laws.{current_alloc-Keeps, run_driving_verb-Keeps}
use gc_runtime_nomad.Lifecycle.Driving.{
  settle, best_effort, op_nudge, op_peek, op_interrupt, op_send_keys, op_clear_scrollback,
}
use gc_runtime_nomad.Lifecycle.Alive.{wanted_names, alive_in, alive_of, named_process_alive}
use gc_runtime_nomad.Lifecycle.Stop.Laws.{Stoppable, op_stop-Keeps}
use gc_runtime_nomad.Lifecycle.Stop.Order.{SettledFirst, op_stop-SettledFirst}
use gc_runtime_nomad.Lifecycle.Dispatch.Laws.{Registrable, dispatch-Keeps}
use gc_runtime_nomad.Lifecycle.Dispatch.Order.{IntentFirst, dispatch-IntentFirst}
use gc_runtime_nomad.Lifecycle.Running.Laws.{op_is_running-Keeps}
use gc_runtime_nomad.Lifecycle.Roster.Laws.{op_list_running-Keeps}
use gc_runtime_nomad.Lifecycle.Doors.Laws.{
  Passable, op_provision-Keeps, op_start-Keeps, op_relaunch-Keeps, op_exec-Keeps,
}
use gc_runtime_nomad.Lifecycle.Sessions.{
  Operation, provision, start, relaunch, stop, is_running, interrupt, clear_scrollback, exec,
  send_keys, process_alive, nudge, peek, list_running, after, run,
}

module _ {N : Type 0} {P : World N → Type 0} (closed : Closed P) (l : Lifecycle N) where
  best_effort-Keeps : (m : M N (Unit {0})) → Keeps P m → Keeps P (best_effort l m)
  unfolding best_effort settle
  best_effort-Keeps m k = Keeps-bind _ _ (Keeps-attempt _ k) settled
    where
      settled : (r : Result (Unit {0})) → Keeps P (settle l r)
      settled (ok done) = Keeps-pure done
      settled (err e) =
          Keeps-if (is session_not_found e) _ _ (λ _. Keeps-pure tt) (λ _. Keeps-raise e)

  op_peek-Keeps : (session : String) (lines : ℕ) → Keeps P (op_peek l session lines)
  unfolding op_peek
  op_peek-Keeps session lines =
      Keeps-bind _ _ (Keeps-annotate _ _ (current_alloc-Keeps closed l session)) λ alloc.
        Keeps-bind _ _ (Keeps-annotate _ _ (Keeps-call _ closed))
          λ answer. Keeps-if (not (answer.0 == 0)) _ _ (λ _. Keeps-raise _) (λ _. Keeps-pure _)

  alive_of-Keeps : (session : String) (wanted : List String) → Keeps P (alive_of l session wanted)
  unfolding alive_of alive_in
  alive_of-Keeps session [] = Keeps-pure _
  alive_of-Keeps session (name ∷ wanted) =
      Keeps-bind _ _ (current_alloc-Keeps closed l session) λ alloc.
        Keeps-if (str_eq alloc "") _ _ (λ _. Keeps-pure _)
          λ _. Keeps-bind _ _ (Keeps-attempt _ (Keeps-call _ closed)) λ answer. Keeps-pure _

  named_process_alive-Keeps :
      (session : String) (names : List String) → Keeps P (named_process_alive l session names)
  unfolding named_process_alive
  named_process_alive-Keeps session names = alive_of-Keeps session (wanted_names names)

module _ {N : Type 0} (l : Lifecycle N) {P : World N → Type 0} (passable : Passable l P) where
  closed : Closed P
  closed = passable.closed

  after-Keeps : (operation : Operation) (w : World N) → P w → P (after l operation w)
  unfolding after op_nudge op_interrupt op_send_keys op_clear_scrollback
  after-Keeps (provision session cfg) w h = (op_provision-Keeps l passable session cfg).at w h
  after-Keeps (start session cfg) w h = (op_start-Keeps l passable session cfg).at w h
  after-Keeps (relaunch session) w h = (op_relaunch-Keeps closed l session).at w h
  after-Keeps (stop session) w h = (passable.stopping session).at w h
  after-Keeps (is_running session) w h =
      (op_is_running-Keeps closed l passable.stopping session).at w h
  after-Keeps (interrupt session) w h =
      (best_effort-Keeps closed l _ (run_driving_verb-Keeps closed l session _ _)).at w h
  after-Keeps (clear_scrollback session) w h = (run_driving_verb-Keeps closed l session _ _).at w h
  after-Keeps (exec session command) w h = (op_exec-Keeps closed l session command).at w h
  after-Keeps (send_keys session keys) w h = (run_driving_verb-Keeps closed l session _ _).at w h
  after-Keeps (process_alive session names) w h =
      (named_process_alive-Keeps closed l session names).at w h
  after-Keeps (nudge session text) w h =
      (best_effort-Keeps closed l _ (run_driving_verb-Keeps closed l session _ _)).at w h
  after-Keeps (peek session lines) w h = (op_peek-Keeps closed l session lines).at w h
  after-Keeps (list_running prefix) w h = (op_list_running-Keeps closed l prefix).at w h

  run-Keeps : (operations : List Operation) (w : World N) → P w → P (run l operations w)
  unfolding run
  run-Keeps [] w h = h
  run-Keeps (operation ∷ operations) w h =
      run-Keeps operations (after l operation w) (after-Keeps operation w h)

-- Both orders of the trace.
abbrev pub IsOrdered : {N : Type 0} → World N → Type 0
IsOrdered w = IntentFirst w.trace × SettledFirst w.trace

module _ {N : Type 0} (l : Lifecycle N) where
  intent-Stoppable : Stoppable {N = N} (λ w. IntentFirst w.trace)
  intent-Stoppable = record {
    closed = record {
      moving = λ w n h. h;
      saving = λ w b files h. h;
      copying = λ w session alloc name body h. h;
    };
    removing = λ w session files h. h;
    deregistering = λ w child h. h;
  }

  settled-Registrable : Registrable {N = N} (λ w. SettledFirst w.trace)
  settled-Registrable = record {
    closed = record {
      moving = λ w n h. h;
      saving = λ w b files h. h;
      copying = λ w session alloc name body h. h;
    };
    registering = λ w job h. h;
  }

  sending-Keeps :
      (session nonce : String)
      → Keeps {N = N} (λ w. SettledFirst w.trace) (emit (dispatch_sent session nonce))
  unfolding ◌>>=◌
  sending-Keeps session nonce = record { at = λ w h. h }

  burying-Keeps : (t : Tombstone) → Keeps {N = N} IsOrdered (emit (tombstoned t))
  unfolding ◌>>=◌
  burying-Keeps t = record { at = λ w h. h }

  IsOrdered-Passable : Passable l IsOrdered
  IsOrdered-Passable = record {
    closed = record {
      moving = λ w n h. h;
      saving = λ w b files h. h;
      copying = λ w session alloc name body h. h;
    };
    burying = burying-Keeps;
    stopping = λ session. record {
      at = λ w (intent, settled). (
        (op_stop-Keeps intent-Stoppable l session).at w intent,
        op_stop-SettledFirst l session w settled,
      );
    };
    dispatching = λ session image. record {
      at = λ w (intent, settled). (
        dispatch-IntentFirst l session image w intent,
        (dispatch-Keeps settled-Registrable l sending-Keeps session image).at w settled,
      );
    };
  }

-- From an empty trace, after any sequence of the pack's operations on any sessions, whatever the
-- cluster, the boxes, the disk and the clock do and whichever operations fail: each request that
-- dispatched a child has before it a written intent with its session, its nonce and no child, and
-- each request that deregistered a child has before it a written binding of that child whose egress
-- is complete or whose evidence is marked lost.
pub run-IsOrdered :
    {N : Type 0} (l : Lifecycle N) (operations : List Operation) (w : World N)
    → w.trace ≡ []
    → IsOrdered (run l operations w)
run-IsOrdered l operations w fresh =
    run-Keeps l (IsOrdered-Passable l) operations w
      (subst (λ t. IntentFirst t × SettledFirst t) (sym fresh) (tt, tt))
