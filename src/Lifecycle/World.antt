-- ===== src/Lifecycle/World.antt =====
-- The lifecycle's state and what it calls: the Nomad client, the disk and the clock. `N` is the
-- state of everything outside the process: the cluster, the boxes, the disk's health and the time.
pub mod Triples
pub mod Keeping
pub mod Outcomes
pub mod Fuel
use gc_runtime_nomad.Base.{ℕ, Bool, Option, List, [], ◌∷◌, String, Dict}
use gc_runtime_nomad.Lifecycle.Error.{Err, wrap, Result, ok, err}
use gc_runtime_nomad.Staging.StagePath.{TarEntry}
use gc_runtime_nomad.Staging.Sources.{Source, HostFile}
use gc_runtime_nomad.Lifecycle.Types.{Binding, StageConfig, Tombstone, AllocRecord, ChildJob}

-- The file operations of the sidecar directory and the evidence sink, as they may fail.
pub data DiskOp : Type 0 where
  read_file write_file rename_file remove_file : String → DiskOp
  read_dir make_dir : DiskOp

-- What is written to a command's standard input.
pub data Stdin : Type 0 where
  archive : List TarEntry → Stdin
  body : String → Stdin

-- runtime/client.go, type placementFailure, by what provision tells apart.
pub record PlacementFailure : Type 0 where
  pub found : Bool
  pub nodes_in_pool : ℕ
  pub nodes_evaluated : ℕ

-- runtime/client.go, type client: its requests. Each takes the outside to its next state.
pub record Client (N : Type 0) : Type 0 where
  pub namespace : String
  -- listAllocsForJob(job, sinceIndex, wait)
  pub list_allocs_for_job : String → ℕ → ℕ → N → Result (List AllocRecord × ℕ) × N
  -- listChildJobs(parent)
  pub list_child_jobs : String → N → Result (List ChildJob) × N
  -- dispatchChildAt(parent, session, nonce, createdAt, image)
  pub dispatch_child_at : String → String → String → ℕ → String → N → Result String × N
  -- deregisterJob(job, purge)
  pub deregister_job : String → Bool → N → Result ℕ × N
  -- getJob(job): the node pool and the meta, or none where the job is gone
  pub get_job : String → N → Result (Option (String × Dict String)) × N
  -- registerJob(spec), the spec by its node pool and its meta
  pub register_job : String → Dict String → N → Result (Unit {0}) × N
  -- execAlloc(alloc, task, command): the exit code and the output
  pub exec_alloc : String → String → List String → N → Result (ℕ × String) × N
  -- execAllocStdin(alloc, task, command, stdin)
  pub exec_alloc_stdin : String → String → List String → Stdin → N → Result (ℕ × String) × N
  -- execAllocObserved(alloc, task, command, nil): the exit code and both output streams
  pub exec_alloc_observed : String → String → List String → N → Result (ℕ × String × String) × N
  -- jobPlacementFailure(job)
  pub job_placement_failure : String → N → PlacementFailure × N
  -- readAllocFile(alloc, path)
  pub read_alloc_file : String → String → N → Result String × N

-- runtime/ops.go, type lifecycle, with the process's surroundings.
pub record Lifecycle (N : Type 0) : Type 0 where
  pub client : Client N
  pub parent_job_id : String
  pub node_pool : String
  pub egress_dir : String
  pub forbid_registration : Bool
  pub log_shipper_enabled : Bool
  pub agent_image : String
  pub adopt_max_age : ℕ
  -- the hash that parentJobSpec writes into the parent's meta
  pub jobspec_hash : String
  -- the scripts that flushLogShipper hands to the box's shell
  pub log_shipper_flush_command : String
  pub log_shipper_flush_probe : String
  -- the commands that ask the gc in the box, and whether the host's own gc told its commit
  pub in_box_probe_command : List String
  pub in_box_version_command : List String
  pub host_gc_known : Bool
  -- whether GC_NOMAD_CITY_MIRROR_URL is set
  pub city_mirror : Bool
  -- the grep for drainAckMarker's pattern; none where the pattern does not compile
  pub drain_ack_command : Option String
  -- os.LookupEnv, and the names in GC_NOMAD_EXTRA_SECRET_KEYS
  pub lookup_env : String → Option String
  pub extra_secret_keys : List String
  -- a source of `copy_files` on this host, as `os.Stat`, `os.ReadFile` and `filepath.Walk` find it
  pub source_at : String → N → Result Source × N
  -- a file on this host by its path, as `os.Stat` and `os.ReadFile` find it
  pub file_at : String → N → Option HostFile × N
  -- `filepath.EvalSymlinks`, or the path itself where that fails, and `os.UserHomeDir`
  pub real_path : String → N → String × N
  pub user_home : Option String
  -- prime.go, primeScript
  pub prime_script : String
  -- time.Now
  pub clock : N → ℕ × N
  -- time.After
  pub sleep : ℕ → N → N
  -- time.Parse(time.RFC3339Nano, _), in UTC
  pub parse_time : String → Option ℕ
  -- the flock on the session's lock file, and its release
  pub lock_session : String → N → Result (Unit {0}) × N
  pub unlock_session : String → N → N
  -- crypto/rand, in hex
  pub new_nonce : N → Result String × N
  -- whether the operating system fails a file operation
  pub disk_fails : DiskOp → N → Bool × N

-- A sidecar file: the binding that it decodes to, or bytes that do not decode.
pub data FileBody : Type 0 where
  json : Binding → FileBody
  garbage : FileBody

-- What the process did to its surroundings.
pub data Event : Type 0 where
  saved : Binding → Event
  removed : String → Event
  tombstoned : Tombstone → Event
  -- one file of one allocation, in the evidence sink
  copied : (session alloc name body : String) → Event
  -- requests, when they are sent
  dispatch_sent : (session nonce : String) → Event
  deregister_sent : (job : String) → Event
  register_sent : (job : String) → Event

pub record World (N : Type 0) : Type 0 where
  pub outside : N
  -- the sidecar directory's bindings, by session name
  pub bindings : Dict FileBody
  -- newest first
  pub trace : List Event

-- A Go function of the lifecycle: an error leaves what was done before it.
abbrev pub M : Type 0 → Type 0 → Type 0
M N A = World N → Result A × World N

module _ {N A : Type 0} where
  pub pure : A → M N A
  pure a w = (ok a, w)

  pub raise : Err → M N A
  raise e w = (err e, w)

  -- The error becomes a value: `x, err := f()` with no early return.
  pub attempt : M N A → M N (Result A)
  attempt m w = let (r, w') = m w in (ok r, w')

  -- A request to the outside.
  pub call : (N → Result A × N) → M N A
  call f w = let (r, n) = f w.outside in (r, record w { outside = n })

  -- What cannot fail.
  pub observe : (N → A × N) → M N A
  observe f w = let (a, n) = f w.outside in (ok a, record w { outside = n })

  -- `fmt.Errorf("…: %w", err)` round an error, and the result as it is.
  pub annotate : String → M N A → M N A
  annotate text m w = elim (m w).0 [ ok a ↦ m w | err e ↦ (err (wrap text e), (m w).1) ]

  pub lift : Result A → M N A
  lift r w = (r, w)

  pub gets : (World N → A) → M N A
  gets f w = (ok (f w), w)

module _ {N : Type 0} where
  pub emit : Event → M N (Unit {0})
  emit e w = (ok tt, record w { trace = e ∷ w.trace })

  pub put_bindings : Dict FileBody → M N (Unit {0})
  put_bindings files w = (ok tt, record w { bindings = files })

module _ {N A B : Type 0} where
  abbrev pub continue : (A → M N B) → Result A × World N → Result B × World N
  continue k (ok a, w) = k a w
  continue k (err e, w) = (err e, w)

  infixl 5 ◌>>=◌ ◌>>◌
  -- Opening `>>=` opens every action above.
  unfoldable pub ◌>>=◌ : M N A → (A → M N B) → M N B
  unfolding pure raise attempt call observe annotate lift gets emit put_bindings
  ◌>>=◌ m k w = continue k (m w)

  abbrev pub ◌>>◌ : M N A → M N B → M N B
  m >> k = m >>= λ _. k
