-- ===== src/Lifecycle/Running.antt =====
-- runtime/ops.go, prime.go and drain_ack.go: is a session running, which ones are (opIsRunning), and what a poll writes down on the way (syncPromptedMarker,
-- syncCityCheckoutMarker, reapDrainedOneShot).
pub mod Laws
pub mod Honest
use gc_runtime_nomad.Base.{
  value_of, ℕ, Bool, true, false, not, ◌&&◌, ◌||◌, Option, none, some, List, [], ◌∷◌, String, ◌==◌,
  str_eq, starts_with, trim_space, cut, if◌then◌else◌,
}
use gc_runtime_nomad.Lifecycle.Error.{Err, wrap, Result, ok, err}
use gc_runtime_nomad.Lifecycle.Types.{Binding, AllocRecord, ChildJob}
use gc_runtime_nomad.Lifecycle.World.{
  Lifecycle, World, M, pure, raise, attempt, annotate, call, observe, ◌>>=◌, ◌>>◌,
}
use gc_runtime_nomad.Lifecycle.Sidecar.{load, save, list}
use gc_runtime_nomad.Lifecycle.Recover.{first_live}
use gc_runtime_nomad.Lifecycle.Alloc.{exec_task_name, current_alloc}
use gc_runtime_nomad.Lifecycle.Stop.{op_stop}
use gc_runtime_nomad.Lifecycle.Adopt.{probe_agent_alive}

abbrev pub prompt_marker_command : String
prompt_marker_command =
    "cat \"$NOMAD_SECRETS_DIR/gc-prime/prompted_at\" 2>/dev/null; printf '\\036'; cat \"$NOMAD_SECRETS_DIR/gc-prime/status\" 2>/dev/null"

abbrev pub prompt_tail_command : String
prompt_tail_command = "cat \"$NOMAD_SECRETS_DIR/gc-prime/pane_tail\" 2>/dev/null"

abbrev pub city_marker_command : String
city_marker_command =
    "cat \"$NOMAD_SECRETS_DIR/gc-city-checkout/sha\" 2>/dev/null; printf '\\036'; cat \"$NOMAD_SECRETS_DIR/gc-city-checkout/status\" 2>/dev/null"

-- The two marker files of one answer, either empty where it is missing.
unfoldable pub marker_parts : String → String × String
unfolding cut trim_space
marker_parts out =
    let (before, after) = cut 0x1e out in
    (trim_space before, elim after [ none ↦ "" | some rest ↦ trim_space rest ])

unfoldable pub tail_of : Result (ℕ × String) → String
unfolding trim_space
tail_of (err e) = ""
tail_of (ok (exit_code, out)) = if exit_code == 0 then trim_space out else ""

-- What the markers add to the binding, given the time that the first one stands for.
unfoldable pub prompted : Option ℕ → String → String → Binding → Binding
prompted at status tail b = record b {
  prompted_at = elim at [ none ↦ b.prompted_at | some t ↦ some t ];
  prompt_status =
      if not (str_eq status "")
      then status
      else elim at [ none ↦ b.prompt_status | some _ ↦ "delivered" ];
  prompt_pane_tail = tail;
}

module _ {N : Type 0} (l : Lifecycle N) where
  unfoldable pub in_box : String → String → M N (ℕ × String)
  in_box alloc command =
      call (l.client.exec_alloc alloc exec_task_name ("/bin/sh" ∷ "-c" ∷ command ∷ []))

  unfoldable pub delivered_at : String → M N (Option ℕ)
  delivered_at marker = if str_eq marker "" then pure none else elim (l.parse_time marker) [
    | some t ↦ pure (some t)
    | none ↦ observe l.clock >>= λ now. pure (some now)
  ]

  unfoldable pub sync_prompted_parts : Binding → String → String × String → M N (Unit {0})
  sync_prompted_parts b alloc (marker, status) = do
    tail ← attempt (in_box alloc prompt_tail_command)
    if str_eq marker "" && str_eq status "" then pure tt else do
      at ← delivered_at marker
      attempt (save l (prompted at status (tail_of tail) b))
      pure tt

  unfoldable pub sync_prompted_answer : Binding → String → Result (ℕ × String) → M N (Unit {0})
  sync_prompted_answer b alloc (err e) = pure tt
  sync_prompted_answer b alloc (ok (exit_code, out)) =
      if not (exit_code == 0) then pure tt else sync_prompted_parts b alloc (marker_parts out)

  unfoldable pub sync_prompted_in : Binding → Result String → M N (Unit {0})
  sync_prompted_in b (err e) = pure tt
  sync_prompted_in b (ok alloc) = do
    answer ← attempt (in_box alloc prompt_marker_command)
    sync_prompted_answer b alloc answer

  -- A session that is primed, or owes no prompt, is left alone.
  unfoldable pub is_owed : Binding → Bool
  is_owed b = elim b.prompted_at [
    | some _ ↦ false
    | none ↦ elim b.prompt_pending [ none ↦ false | some _ ↦ true ]
  ]

  unfoldable pub sync_prompted_from : String → Result (Option Binding) → M N (Unit {0})
  sync_prompted_from session (err e) = pure tt
  sync_prompted_from session (ok none) = pure tt
  sync_prompted_from session (ok (some b)) =
      if not (is_owed b)
      then pure tt
      else do alloc ← attempt (current_alloc l session); sync_prompted_in b alloc

  unfoldable pub sync_prompted_marker : String → M N (Unit {0})
  sync_prompted_marker session = attempt (load l session) >>= sync_prompted_from session

  unfoldable pub sync_city_parts : Binding → String × String → M N (Unit {0})
  sync_city_parts b (sha, status) =
      if str_eq sha "" && str_eq status ""
      then pure tt
      else if str_eq sha b.city_checkout_sha && str_eq status b.city_checkout_status
      then pure tt
      else do
        attempt (save l (record b { city_checkout_sha = sha; city_checkout_status = status }))
        pure tt

  unfoldable pub sync_city_answer : Binding → Result (ℕ × String) → M N (Unit {0})
  sync_city_answer b (err e) = pure tt
  sync_city_answer b (ok (exit_code, out)) =
      if not (exit_code == 0) then pure tt else sync_city_parts b (marker_parts out)

  unfoldable pub sync_city_in : Binding → Result String → M N (Unit {0})
  sync_city_in b (err e) = pure tt
  sync_city_in b (ok alloc) = do
    answer ← attempt (in_box alloc city_marker_command)
    sync_city_answer b answer

  unfoldable pub sync_city_from : String → Result (Option Binding) → M N (Unit {0})
  sync_city_from session (err e) = pure tt
  sync_city_from session (ok none) = pure tt
  sync_city_from session (ok (some b)) = do
    alloc ← attempt (current_alloc l session)
    sync_city_in b alloc

  unfoldable pub sync_city_checkout_marker : String → M N (Unit {0})
  sync_city_checkout_marker session =
      if not l.city_mirror then pure tt else (attempt (load l session) >>= sync_city_from session)

  -- paneShowsDrainAck, and any failure of it as no.
  unfoldable pub shows_ack : Result (ℕ × String) → Bool
  shows_ack (err e) = false
  shows_ack (ok (exit_code, out)) = exit_code == 0

  unfoldable pub succeeded : Result (Unit {0}) → Bool
  succeeded (ok _) = true
  succeeded (err e) = false

  unfoldable pub reap_acknowledged : String → Binding → Bool → M N Bool
  reap_acknowledged session b drained = if not drained then pure false else do
    attempt (save l (record b { exit_reason = "drain_ack" }))
    stopped ← attempt (op_stop l session)
    pure (succeeded stopped)

  unfoldable pub reap_marked : String → String → Binding → Option String → M N Bool
  reap_marked session alloc b none = pure false
  reap_marked session alloc b (some check) = do
    answer ← attempt (in_box alloc check)
    reap_acknowledged session b (shows_ack answer)

  -- reapDrainedOneShot: whether the session was stopped.
  unfoldable pub reap_drained_one_shot : String → String → Binding → M N Bool
  reap_drained_one_shot session alloc b =
      if not (str_eq b.lifecycle "one_shot") || not (str_eq b.exit_reason "")
      then pure false
      else reap_marked session alloc b l.drain_ack_command

  unfoldable pub is_not_ready : Result (Option Binding) → Bool
  is_not_ready (ok (some b)) = str_eq b.prompt_status "not_ready"
  is_not_ready _ = false

  -- The last part of opIsRunning: a one-shot session that has drained is retired.
  unfoldable pub retire : String → String → Result (Option Binding) → M N Bool
  retire session alloc (ok (some b)) = do
    reaped ← reap_drained_one_shot session alloc b
    pure (not reaped)
  retire session alloc (ok none) = pure true
  retire session alloc (err e) = pure true

  -- opIsRunning after the probe; a probe that fails answers as if the agent lived.
  unfoldable pub running_probed : String → String → Result Bool → M N Bool
  running_probed session alloc (err e) = pure true
  running_probed session alloc (ok alive) = do
    sync_prompted_marker session
    sync_city_checkout_marker session
    latest ← attempt (load l session)
    if is_not_ready latest
        then pure false
        else if not alive
        then pure false
        else (attempt (load l session) >>= retire session alloc)

  unfoldable pub running_in : String → Binding → Option AllocRecord → M N Bool
  running_in session b none = pure false
  running_in session b (some a) = do
    answer ← attempt (probe_agent_alive l a.id b.agent_pid)
    running_probed session a.id answer

  unfoldable pub running_listed : String → Binding → Result (List AllocRecord × ℕ) → M N Bool
  running_listed session b (err e) = pure true
  running_listed session b (ok (allocs, _)) = running_in session b (first_live allocs)

  unfoldable pub running_from : String → Option Binding → M N Bool
  running_from session none = pure false
  running_from session (some b) =
      if str_eq b.child_job_id "" || not b.launched then pure false else do
        listed ← attempt (call (l.client.list_allocs_for_job b.child_job_id 0 0))
        running_listed session b listed

  unfoldable pub op_is_running : String → M N Bool
  op_is_running session = load l session >>= running_from session
