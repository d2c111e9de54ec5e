-- ===== src/Fake/State.antt =====
-- fakenomad/fakenomad.go: the state of the fake Nomad server (Job, TaskSpec, Allocation, fault,
-- Server), less the handles of the operating system. A Go map is an association list; a handler
-- that ranges over one answers in its order.
use gc_runtime_nomad.Base.{ℕ, ◌+◌, ◌%◌, ◌^◌, Bool, true, false, List, [], String, Dict}

pub record TemplateSpec : Type 0 where
  pub embedded_tmpl : String
  pub dest_path : String

pub record TaskSpec : Type 0 where
  pub name : String
  pub command : List String
  pub env : Dict String
  pub templates : List TemplateSpec

pub record Job : Type 0 where
  pub id : String
  pub namespace : String
  pub node_pool : String
  pub parent_id : String
  pub dispatched : Bool
  pub meta : Dict String
  pub modify_index : ℕ
  pub tasks : List TaskSpec
  pub port_labels : List String

pub record Allocation : Type 0 where
  pub id : String
  pub job_id : String
  pub namespace : String
  pub desired_status : String
  pub client_status : String
  pub modify_index : ℕ
  pub ports : Dict ℕ
  pub task_states : Dict String

-- A delay is in nanoseconds.
pub record Fault : Type 0 where
  pub method : String
  pub path : String
  pub status : ℕ
  pub body : String
  pub delay : ℕ
  pub sticky : Bool
  pub passthrough : Bool

pub record Server : Type 0 where
  pub index : ℕ
  pub jobs : Dict Job
  pub allocs : Dict Allocation
  pub alloc_files : Dict (Dict String)
  pub faults : List Fault
  pub exec_fails : ℕ
  pub exec_resets : ℕ
  pub exec_hangups : ℕ
  pub alloc_list_err : Bool
  pub no_place_allocs : Bool
  pub disp_seq : ℕ
  pub port_seq : ℕ
  -- oldest first
  pub trace : List String

-- newServer
abbrev pub new_server : Server
new_server = record {
  index = 0;
  jobs = [];
  allocs = [];
  alloc_files = [];
  faults = [];
  exec_fails = 0;
  exec_resets = 0;
  exec_hangups = 0;
  alloc_list_err = false;
  no_place_allocs = false;
  disp_seq = 0;
  port_seq = 0;
  trace = [];
}

-- `n++` on a uint64
abbrev pub next_uint64 : ℕ → ℕ
next_uint64 n = (n + 1) % 2 ^ 64

-- bumpIndexLocked: the new index is in the state. Waking the blocked readers is not modelled.
unfoldable pub bump_index_locked : Server → Server
bump_index_locked s = record s { index = next_uint64 s.index }

-- SetAllocListError
unfoldable pub set_alloc_list_error : Bool → Server → Server
set_alloc_list_error fail s = record s { alloc_list_err = fail }

-- SetPlaceAllocs
unfoldable pub set_place_allocs : Bool → Server → Server
set_place_allocs true s = record s { no_place_allocs = false }
set_place_allocs false s = record s { no_place_allocs = true }
