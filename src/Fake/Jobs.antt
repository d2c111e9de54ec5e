-- ===== src/Fake/Jobs.antt =====
-- fakenomad/fakenomad.go: the handlers of the fake server (registerJob, listJobs, dispatchJob,
-- readJob, listAllocsForJob, listAllocs, readAlloc, deregisterJob, catAllocFile). A handler takes
-- the decoded request; a blocking one answers from the state at the end of its wait. An answer
-- keeps what the pack reads of it.
pub mod Within
pub mod Growth
pub mod Indices
pub mod Deregister
use gc_runtime_nomad.Base.{
  ℕ, ◌+◌, Bool, true, false, not, ◌&&◌, ◌||◌, Option, none, some, List, [], ◌∷◌, ◌++◌, String, Dict,
  insert, lookup, erase, str_eq, itoa, hex6, if◌then◌else◌,
}
use Prim.Native.String
use gc_runtime_nomad.Fake.State.{
  TemplateSpec, TaskSpec, Job, Allocation, Server, next_uint64, bump_index_locked,
}
use gc_runtime_nomad.Fake.Allocs.{terminal_alloc_status, default_alloc_files, start_all_tasks}
use gc_runtime_nomad.Fake.Messages.{
  JobListEntry, Response, json_error, scripted, registered, job_list, dispatched, job_read,
  alloc_list, alloc_read, deregistered, content, collected, exec_stream, TaskConfig, RequestTask,
  RequestGroup, JobSpec, texts, task_command, task_specs, port_labels, or_else, first_group,
}

unfoldable pub register_job : JobSpec → String → Server → Response × Server
unfolding or_else first_group bump_index_locked insert
register_job spec path_id s =
    let id = or_else spec.id path_id in
    let s' = bump_index_locked s in
    if str_eq id "" then (json_error 400 "missing job ID", s) else (
      registered s'.index,
      record s' {
        jobs =
            insert id
              (record {
                id = id;
                namespace = or_else spec.namespace "default";
                node_pool = spec.node_pool;
                parent_id = "";
                dispatched = false;
                meta = spec.meta;
                modify_index = s'.index;
                tasks = (first_group spec.task_groups).0;
                port_labels = (first_group spec.task_groups).1;
              })
              s'.jobs;
      },
    )

-- The job has an allocation that is not terminal.
unfoldable pub runs : String → Dict Allocation → Bool
unfolding terminal_alloc_status
runs job [] = false
runs job ((_, a) ∷ allocs) =
    (str_eq a.job_id job && not (terminal_alloc_status a.client_status)) || runs job allocs

unfoldable pub entries : Bool → Dict Allocation → Dict Job → List JobListEntry
unfolding runs
entries include_meta allocs [] = []
entries include_meta allocs ((_, j) ∷ jobs) =
    (record {
      id = j.id;
      parent_id = j.parent_id;
      namespace = j.namespace;
      node_pool = j.node_pool;
      status = if runs j.id allocs then "running" else "dead";
      meta = if include_meta then some j.meta else none;
    })
    ∷ entries include_meta allocs jobs

unfoldable pub list_jobs : Bool → Server → Response
unfolding entries
list_jobs include_meta s = job_list s.index (entries include_meta s.allocs s.jobs)

-- The ports of an allocation: one more of the server's for each label.
unfoldable pub assign_ports : List String → ℕ → Dict ℕ → Dict ℕ × ℕ
unfolding insert
assign_ports [] seq ports = (ports, seq)
assign_ports (label ∷ labels) seq ports =
    assign_ports labels (next_uint64 seq) (insert label (21000 + next_uint64 seq) ports)

-- The dispatched job's id, from the second of Unix time and the server's count.
unfoldable pub child_id : String → ℕ → ℕ → String
unfolding itoa hex6
child_id parent_id now seq =
    String.◌++◌ parent_id
      (String.◌++◌ "/dispatch-" (String.◌++◌ (itoa now) (String.◌++◌ "-" (hex6 seq))))

-- dispatchJob until the job is written, and then until its ports are assigned.
unfoldable pub write_child : ℕ → String → Job → Dict String → Server → Server
unfolding bump_index_locked insert child_id
write_child now parent_id parent meta s =
    let counted = record s { disp_seq = next_uint64 s.disp_seq } in
    let s' = bump_index_locked counted in
    let child = child_id parent_id now s'.disp_seq in
    record s' {
      jobs =
          insert child
            (record {
              id = child;
              namespace = parent.namespace;
              node_pool = parent.node_pool;
              parent_id = parent_id;
              dispatched = true;
              meta = meta;
              modify_index = s'.index;
              tasks = parent.tasks;
              port_labels = parent.port_labels;
            })
            counted.jobs;
    }

unfoldable pub alloc_id : ℕ → String
unfolding hex6
alloc_id seq = String.◌++◌ "alloc-" (hex6 seq)

-- dispatchJob's allocation of the child.
unfoldable pub place_child : String → Job → Dict ℕ → Server → Server
unfolding bump_index_locked insert default_alloc_files alloc_id
place_child child parent ports s =
    let alloc = alloc_id s.disp_seq in
    let filed = record s { alloc_files = insert alloc (default_alloc_files alloc) s.alloc_files } in
    let s' = bump_index_locked filed in
    record s' {
      allocs =
          insert alloc
            (record {
              id = alloc;
              job_id = child;
              namespace = parent.namespace;
              desired_status = "run";
              client_status = "pending";
              modify_index = s'.index;
              ports = ports;
              task_states = [];
            })
            filed.allocs;
    }

-- dispatchJob of a parent that exists; `starts` tells which of the tasks start.
unfoldable pub dispatch_child :
    (TaskSpec → Bool) → ℕ → String → Job → Dict String → Server → Response × Server
unfolding write_child child_id assign_ports place_child alloc_id start_all_tasks
dispatch_child starts now parent_id parent meta s =
    let written = write_child now parent_id parent meta s in
    let child = child_id parent_id now written.disp_seq in
    let (ports, seq) = assign_ports parent.port_labels written.port_seq [] in
    let s' = record written { port_seq = seq } in
    let placed = place_child child parent ports s' in
    if s'.no_place_allocs then (dispatched child s'.index, s') else (
      dispatched child placed.index,
      start_all_tasks starts (alloc_id s'.disp_seq) parent.tasks placed,
    )

unfoldable pub dispatch_job :
    (TaskSpec → Bool) → ℕ → String → Dict String → Server → Response × Server
unfolding lookup dispatch_child
dispatch_job starts now parent_id meta s = elim (lookup parent_id s.jobs) [
  | none ↦ (json_error 404 "job not found", s)
  | some parent ↦ dispatch_child starts now parent_id parent meta s
]

unfoldable pub read_job : String → Server → Response
unfolding lookup
read_job id s = elim (lookup id s.jobs) [
  | none ↦ json_error 404 "job not found"
  | some job ↦ job_read s.index job
]

unfoldable pub of_job : String → Dict Allocation → List Allocation
of_job job [] = []
of_job job ((_, a) ∷ allocs) =
    if str_eq a.job_id job then a ∷ of_job job allocs else of_job job allocs

unfoldable pub list_allocs_for_job : String → Server → Response
unfolding of_job
list_allocs_for_job job s =
    if s.alloc_list_err
    then json_error 500 "allocation list unavailable"
    else alloc_list s.index (of_job job s.allocs)

unfoldable pub values : Dict Allocation → List Allocation
values [] = []
values ((_, a) ∷ allocs) = a ∷ values allocs

unfoldable pub list_allocs : Server → Response
unfolding values
list_allocs s = alloc_list s.index (values s.allocs)

unfoldable pub read_alloc : String → Server → Response
unfolding lookup
read_alloc id s = elim (lookup id s.allocs) [
  | none ↦ json_error 404 "alloc not found"
  | some a ↦ alloc_read s.index a
]

-- deregisterJob's loop over the allocations.
unfoldable pub stop_alloc : String → ℕ → Allocation → Allocation
stop_alloc job index a =
    if not (str_eq a.job_id job)
    then a
    else if str_eq a.client_status "complete" || str_eq a.client_status "failed"
    then a
    else record a { desired_status = "stop"; client_status = "complete"; modify_index = index }

unfoldable pub stop_allocs : String → ℕ → Dict Allocation → Dict Allocation
unfolding stop_alloc
stop_allocs job index [] = []
stop_allocs job index ((id, a) ∷ allocs) =
    (id, stop_alloc job index a) ∷ stop_allocs job index allocs

unfoldable pub deregister_job : String → Bool → Server → Response × Server
unfolding lookup erase stop_allocs bump_index_locked
deregister_job id purge s =
    let s' = bump_index_locked s in
    elim (lookup id s.jobs) [
      | none ↦ (json_error 404 "job not found", s)
      | some _ ↦ (
        deregistered s'.index,
        record s' {
          jobs = if purge then erase id s'.jobs else s'.jobs;
          allocs = stop_allocs id s'.index s'.allocs;
        },
      )
    ]

unfoldable pub file_content : Option String → Response
file_content none = json_error 404 "file not found"
file_content (some body) = content body

unfoldable pub cat_alloc_file : String → String → Server → Response
unfolding lookup file_content
cat_alloc_file alloc path s = elim (lookup alloc s.allocs) [
  | none ↦ json_error 404 "alloc not found"
  | some _ ↦
      file_content
        (elim (lookup alloc s.alloc_files) [ none ↦ none | some files ↦ lookup path files ])
]
