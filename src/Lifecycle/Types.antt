-- ===== src/Lifecycle/Types.antt =====
-- The records that the lifecycle reads and writes: runtime/sidecar.go (binding, tombstone),
-- runtime/client.go (allocRecord, allocTaskState, childJob) and runtime/staging.go (stageConfig).
-- A time is the nanoseconds since Go's zero time, so 0 is the zero time.
use gc_runtime_nomad.Base.{ℕ, Bool, false, Option, none, List, String, Dict, ◌||◌, str_eq}

pub record CopyEntry : Type 0 where
  pub src : String
  pub rel_dst : String

pub record StageConfig : Type 0 where
  pub work_dir : String
  pub env : Dict String
  pub command : String
  pub nudge : String
  pub process_names : List String
  pub ready_prompt_prefix : String
  pub ready_delay_ms : ℕ
  pub lifecycle : String
  pub pre_start : List String
  pub session_setup : List String
  pub session_setup_script : String
  pub session_live : List String
  pub pack_overlay_dirs : List String
  pub overlay_dir : String
  pub copy_files : List CopyEntry

pub record Binding : Type 0 where
  pub session_name : String
  pub child_job_id : String
  pub namespace : String
  pub nonce : String
  pub created_at : ℕ
  pub egress_complete : Bool
  pub evidence_lost : Bool
  pub stage_pending : Bool
  pub launched : Bool
  pub agent_pid : ℕ
  pub work_dir : String
  pub provider_command : String
  pub prompted_at : Option ℕ
  pub prompt_status : String
  pub prompt_pane_tail : String
  pub prompt_pending : Option StageConfig
  pub lifecycle : String
  pub exit_reason : String
  pub city_checkout_sha : String
  pub city_checkout_status : String

-- `binding{}`
abbrev pub zero_binding : Binding
zero_binding = record {
  session_name = "";
  child_job_id = "";
  namespace = "";
  nonce = "";
  created_at = 0;
  egress_complete = false;
  evidence_lost = false;
  stage_pending = false;
  launched = false;
  agent_pid = 0;
  work_dir = "";
  provider_command = "";
  prompted_at = none;
  prompt_status = "";
  prompt_pane_tail = "";
  prompt_pending = none;
  lifecycle = "";
  exit_reason = "";
  city_checkout_sha = "";
  city_checkout_status = "";
}

pub record Tombstone : Type 0 where
  pub session_name : String
  pub child_job_id : String
  pub alloc_id : String
  pub created_at : ℕ
  pub age : ℕ
  pub launched : Bool
  pub agent_pid : ℕ
  pub reason : String
  pub tombstoned_at : ℕ

pub record AllocTaskState : Type 0 where
  pub state : String
  pub last_event : String
  pub failure_event : String

-- A nil `TaskStates` map has no entry, as an empty one has none.
pub record AllocRecord : Type 0 where
  pub id : String
  pub client_status : String
  pub desired_status : String
  pub task_states : Dict AllocTaskState

pub record ChildJob : Type 0 where
  pub id : String
  pub namespace : String
  pub meta : Dict String
  pub terminal : Bool

-- runtime/ops.go, isTerminalStatus
unfoldable pub is_terminal_status : String → Bool
is_terminal_status status =
    str_eq status "complete" || str_eq status "failed" || str_eq status "lost"
