-- ===== src/Tests/Cluster.antt =====
-- A lifecycle whose outside is a clock alone: one box that is up, whose agent is gone.
use gc_runtime_nomad.Base.{ℕ, ◌+◌, true, false, none, some, [], ◌∷◌}
use gc_runtime_nomad.Lifecycle.Error.{ok}
use gc_runtime_nomad.Lifecycle.Types.{Binding, zero_binding, AllocRecord, ChildJob}
use gc_runtime_nomad.Staging.Sources.{file}
use gc_runtime_nomad.Lifecycle.World.{Client, Lifecycle, json, World}

abbrev pub alloc_up : AllocRecord
alloc_up = record {
  id = "a1";
  client_status = "running";
  desired_status = "run";
  task_states = ("agent", record { state = "running"; last_event = ""; failure_event = "" }) ∷ [];
}

-- Every command in the box exits with 1, and no file of it exists.
abbrev pub small_client : Client ℕ
small_client = record {
  namespace = "default";
  list_allocs_for_job = λ job since wait n. (ok (alloc_up ∷ [], 7), n);
  list_child_jobs = λ parent n. (ok [], n);
  dispatch_child_at = λ parent session nonce at image n. (ok "parent/dispatch-1", n);
  deregister_job = λ job purge n. (ok 8, n);
  get_job = λ job n. (ok (some ("pool", ("gc_jobspec_hash", "h") ∷ [])), n);
  register_job = λ pool meta n. (ok tt, n);
  exec_alloc = λ alloc task command n. (ok (1, ""), n);
  exec_alloc_stdin = λ alloc task command stdin n. (ok (0, ""), n);
  exec_alloc_observed = λ alloc task command n. (ok (0, "", ""), n);
  job_placement_failure =
      λ job n. (record { found = true; nodes_in_pool = 0; nodes_evaluated = 0 }, n);
  read_alloc_file = λ alloc path n. (ok "text", n);
}

abbrev pub small : Lifecycle ℕ
small = record {
  client = small_client;
  parent_job_id = "parent";
  node_pool = "pool";
  egress_dir = "/egress";
  forbid_registration = false;
  log_shipper_enabled = false;
  agent_image = "";
  adopt_max_age = 0;
  jobspec_hash = "h";
  log_shipper_flush_command = "";
  log_shipper_flush_probe = "";
  in_box_probe_command = [];
  in_box_version_command = [];
  host_gc_known = false;
  city_mirror = false;
  drain_ack_command = none;
  lookup_env = λ name. none;
  extra_secret_keys = [];
  source_at = λ path n. (ok (file "text" 420), n);
  file_at = λ path n. (none, n);
  real_path = λ path n. (path, n);
  user_home = some "/home/op";
  prime_script = "run";
  clock = λ n. (n, n + 1);
  sleep = λ d n. n + d;
  parse_time = λ text. none;
  lock_session = λ session n. (ok tt, n);
  unlock_session = λ session n. n;
  new_nonce = λ n. (ok "n1", n);
  disk_fails = λ op n. (false, n);
}

-- A session with a box that was not launched.
abbrev pub bound : Binding
bound = record zero_binding {
  session_name = "s";
  child_job_id = "c1";
  nonce = "n0";
  created_at = 50;
}

abbrev pub launched : Binding
launched = record bound { launched = true }

abbrev pub empty_world : World ℕ
empty_world = record { outside = 100; bindings = []; trace = [] }

abbrev pub bound_world : World ℕ
bound_world = record { outside = 100; bindings = ("s", json bound) ∷ []; trace = [] }

abbrev pub launched_world : World ℕ
launched_world = record { outside = 100; bindings = ("s", json launched) ∷ []; trace = [] }

-- The same with the box's job in the list of children.
abbrev pub child : ChildJob
child = record {
  id = "c1";
  namespace = "default";
  meta = ("gc_session", "s") ∷ ("gc_nonce", "n0") ∷ [];
  terminal = false;
}

abbrev pub listing : Lifecycle ℕ
listing = record small {
  client = record small_client { list_child_jobs = λ parent n. (ok (child ∷ []), n) };
}
