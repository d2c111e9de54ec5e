-- ===== src/Lifecycle/Adopt.antt =====
-- runtime/ops.go: what provision and start do with a session that already has a live child
-- (classifyAdoption, adoptExisting, reapChild). A reason keeps its fixed words; a binding that is
-- created after now has age 0.
pub mod Reuse
pub mod Laws
pub mod Receipt
use gc_runtime_nomad.Base.{
  ℕ, ◌+◌, ◌-◌, ◌*◌, ◌/◌, Bool, true, false, not, ◌&&◌, Option, none, some, List, [], ◌∷◌, String,
  ◌==◌, ltb, str_eq, itoa, if◌then◌else◌,
}
use Prim.Native.String
use gc_runtime_nomad.Lifecycle.Error.{Err, message, wrap, Result, ok, err}
use gc_runtime_nomad.Lifecycle.Types.{Binding, Tombstone, AllocRecord}
use gc_runtime_nomad.Lifecycle.World.{
  Lifecycle, World, M, pure, raise, attempt, annotate, call, observe, ◌>>=◌, ◌>>◌,
}
use gc_runtime_nomad.Lifecycle.Sidecar.{tombstone}
use gc_runtime_nomad.Lifecycle.Recover.{first_live}
use gc_runtime_nomad.Lifecycle.Alloc.{exec_task_name}
use gc_runtime_nomad.Lifecycle.Stop.{op_stop}
use gc_runtime_nomad.Lifecycle.Launch.{confirm_launched}

pub data AdoptPath : Type 0 where
  adopt_reuse adopt_reject adopt_self_heal_launched adopt_reap : AdoptPath

-- defaultAdoptMaxAge, 30 minutes
abbrev pub default_adopt_max_age : ℕ
default_adopt_max_age = 1_800_000_000_000

-- `d.Round(time.Second)`
unfoldable pub round_second : ℕ → ℕ
round_second d = (d + 500_000_000) / 1_000_000_000 * 1_000_000_000

-- The switch of classifyAdoption, on `b.Launched` and on the answer of the probe: whether it is
-- known, and whether the agent lives.
unfoldable pub adoption_switch : Bool → Bool → Bool → AdoptPath × String
adoption_switch true true true = (adopt_reject, "agent alive in the launched box")
adoption_switch true true false = (adopt_reap, "binding says launched but its in-box agent is gone")
adoption_switch true false _ = (adopt_reject, "agent liveness unknown")
adoption_switch false false _ = (adopt_reap, "agent absence could not be confirmed")
adoption_switch false true true =
    (adopt_self_heal_launched, "binding says launched=false but an agent is running")
adoption_switch false true false = (adopt_reuse, "its agent is absent")

-- probeAgentAlive's shell command
unfoldable pub probe_command : ℕ → String
unfolding itoa
probe_command pid =
    if ltb 0 pid
    then String.◌++◌ "tmux has-session -t main" (String.◌++◌ " && kill -0 " (itoa pid))
    else "tmux has-session -t main"

module _ {N : Type 0} (l : Lifecycle N) where
  -- probeAgentAlive
  unfoldable pub probe_agent_alive : String → ℕ → M N Bool
  probe_agent_alive alloc pid = do
    (exit_code, _) ←
        call (l.client.exec_alloc alloc exec_task_name ("/bin/sh" ∷ "-c" ∷ probe_command pid ∷ []))
    pure (exit_code == 0)

  unfoldable pub id_or_empty : Option AllocRecord → String
  id_or_empty none = ""
  id_or_empty (some a) = a.id

  unfoldable pub live_id : Result (List AllocRecord × ℕ) → String
  live_id (err e) = ""
  live_id (ok (allocs, _)) = id_or_empty (first_live allocs)

  -- liveAllocID: the empty text where there is none or the lookup failed.
  unfoldable pub live_alloc_id : Binding → M N String
  live_alloc_id b = do
    listed ← attempt (call (l.client.list_allocs_for_job b.child_job_id 0 0))
    pure (live_id listed)

  -- The answer of a probe, as `alive, known`.
  unfoldable pub as_status : Result Bool → Bool × Bool
  as_status (ok alive) = (alive, true)
  as_status (err e) = (false, false)

  unfoldable pub binding_agent_status : Binding → M N (Bool × Bool)
  binding_agent_status b = do
    alloc ← live_alloc_id b
    if str_eq alloc ""
        then pure (false, false)
        else do answer ← attempt (probe_agent_alive alloc b.agent_pid); pure (as_status answer)

  unfoldable pub adopt_age_limit : ℕ
  adopt_age_limit = if ltb 0 l.adopt_max_age then l.adopt_max_age else default_adopt_max_age

  unfoldable pub classify_adoption : Binding → M N (AdoptPath × String)
  classify_adoption b = do
    observe l.clock
    if b.created_at == 0 then pure (adopt_reject, "binding creation age is unknown") else do
      now ← observe l.clock
      if ltb adopt_age_limit (now - b.created_at)
          then pure (adopt_reap, "binding age exceeds the adoption age limit")
          else do
            (alive, known) ← binding_agent_status b
            pure (adoption_switch b.launched known alive)

  unfoldable pub tombstone_of : String → Binding → String → String → ℕ → ℕ → Tombstone
  tombstone_of session b why alloc now written = record {
    session_name = session;
    child_job_id = b.child_job_id;
    alloc_id = alloc;
    created_at = b.created_at;
    age = round_second (now - b.created_at);
    launched = b.launched;
    agent_pid = b.agent_pid;
    reason = why;
    tombstoned_at = written;
  }

  -- The tombstone is written before the box is stopped.
  unfoldable pub reap_child : String → Binding → String → M N (Unit {0})
  reap_child session b why = do
    alloc ← live_alloc_id b
    now ← observe l.clock
    written ← observe l.clock
    annotate "tombstoning stale box" (tombstone l (tombstone_of session b why alloc now written))
    annotate "reaping stale child" (op_stop l session)

  -- The switch of adoptExisting: whether the caller uses the box that exists.
  unfoldable pub adopt_path : String → Binding → AdoptPath × String → M N Bool
  adopt_path session b (adopt_reuse, why) = pure true
  adopt_path session b (adopt_self_heal_launched, why) = do
    confirm_launched l session b.work_dir b.provider_command b.lifecycle
    raise (message "session already exists")
  adopt_path session b (adopt_reap, why) = do reap_child session b why; pure false
  adopt_path session b (adopt_reject, why) = raise (wrap "session already exists" (message why))

  unfoldable pub adopt_existing : String → Binding → M N Bool
  adopt_existing session b = classify_adoption b >>= adopt_path session b
