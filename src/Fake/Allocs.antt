-- ===== src/Fake/Allocs.antt =====
-- fakenomad/fakenomad.go: the allocations of the fake server, and the tasks in them. Whether a
-- task's templates render and its process starts, and how the process ends, is an argument.
use gc_runtime_nomad.Base.{
  ℕ, Bool, true, false, ◌||◌, Option, none, some, List, [], ◌∷◌, String, Dict, insert, lookup,
  str_eq, hex6, if◌then◌else◌,
}
use Prim.Native.String
use gc_runtime_nomad.Fake.State.{TaskSpec, Allocation, Server, next_uint64, bump_index_locked}

-- terminalAllocStatus
unfoldable pub terminal_alloc_status : String → Bool
terminal_alloc_status status =
    str_eq status "complete" || str_eq status "failed" || str_eq status "lost"

-- defaultAllocFiles; an allocation's id has no character that `%q` would escape.
unfoldable pub default_alloc_files : String → Dict String
default_alloc_files alloc =
    ("alloc/logs/transcript.log", String.◌++◌ "fakenomad transcript for " (String.◌++◌ alloc "\n"))
    ∷ ("alloc/data/evidence.json", String.◌++◌ "{\"alloc_id\":\"" (String.◌++◌ alloc "\"}\n"))
    ∷ []

-- Write an allocation back under the server's next index.
unfoldable pub touch : String → Allocation → Server → Server
unfolding bump_index_locked
touch alloc a s =
    let s' = bump_index_locked s in
    record s' { allocs = insert alloc (record a { modify_index = s'.index }) s'.allocs }

-- setTaskStateLocked
unfoldable pub set_task_state_locked : String → String → Allocation → Allocation
set_task_state_locked task state a = record a { task_states = insert task state a.task_states }

-- SetTaskState: whether the allocation exists.
unfoldable pub set_task_state : String → String → String → Server → Bool × Server
unfolding touch set_task_state_locked lookup
set_task_state alloc task state s = elim (lookup alloc s.allocs) [
  | none ↦ (false, s)
  | some a ↦ (true, touch alloc (set_task_state_locked task state a) s)
]

-- SetAllocStatus
unfoldable pub set_alloc_status : String → String → Server → Bool × Server
unfolding touch lookup
set_alloc_status alloc status s = elim (lookup alloc s.allocs) [
  | none ↦ (false, s)
  | some a ↦ (true, touch alloc (record a { client_status = status }) s)
]

-- SetAllocFile
unfoldable pub set_alloc_file : String → String → String → Server → Bool × Server
unfolding lookup insert
set_alloc_file alloc path content s = elim (lookup alloc s.allocs) [
  | none ↦ (false, s)
  | some a ↦ (
    true,
    record s {
      alloc_files =
          insert alloc
            (insert path content
              (elim (lookup alloc s.alloc_files) [ none ↦ [] | some files ↦ files ]))
            s.alloc_files;
    },
  )
]

-- PlaceAlloc: the id of the new allocation.
unfoldable pub place_alloc : String → String → Server → String × Server
unfolding bump_index_locked insert hex6
place_alloc job status s =
    let s' = bump_index_locked (record s { disp_seq = next_uint64 s.disp_seq }) in
    let alloc = String.◌++◌ "alloc-" (hex6 s'.disp_seq) in
    (
      alloc,
      record s' {
        allocs =
            insert alloc
              (record {
                id = alloc;
                job_id = job;
                namespace = "";
                desired_status = "run";
                client_status = status;
                modify_index = s'.index;
                ports = [];
                task_states = [];
              })
              s'.allocs;
      },
    )

-- AssignedPort
unfoldable pub assigned_port : String → String → Server → Option ℕ
unfolding lookup
assigned_port alloc label s = elim (lookup alloc s.allocs) [
  | none ↦ none
  | some a ↦ lookup label a.ports
]

-- TaskState
unfoldable pub task_state : String → String → Server → Option String
unfolding lookup
task_state alloc task s = elim (lookup alloc s.allocs) [
  | none ↦ none
  | some a ↦ lookup task a.task_states
]

-- The allocation follows its main task, if it is still there.
unfoldable pub main_task_is : String → String → String → Server → Server
unfolding lookup touch set_task_state_locked
main_task_is alloc task status s = elim (lookup alloc s.allocs) [
  | none ↦ s
  | some a ↦ touch alloc (set_task_state_locked task status (record a { client_status = status })) s
]

-- startMainTask, until its process runs; `started` is false where the templates or the start fail.
unfoldable pub start_main_task : Bool → String → TaskSpec → Server → Server
unfolding main_task_is
start_main_task started alloc task s =
    main_task_is alloc task.name (if started then "running" else "failed") s

-- The end of the main task's process, with exit code 0 or not.
unfoldable pub main_task_ends : Bool → String → TaskSpec → Server → Server
unfolding lookup main_task_is terminal_alloc_status
main_task_ends clean alloc task s = elim (lookup alloc s.allocs) [
  | none ↦ s
  | some a ↦
      if terminal_alloc_status a.client_status
      then s
      else main_task_is alloc task.name (if clean then "complete" else "failed") s
]

-- startSideTask
unfoldable pub start_side_task : Bool → String → TaskSpec → Server → Server
unfolding set_task_state
start_side_task started alloc task s =
    (set_task_state alloc task.name (if started then "running" else "failed") s).1

unfoldable pub is_empty : List String → Bool
is_empty [] = true
is_empty (_ ∷ _) = false

unfoldable pub start_side_tasks : (TaskSpec → Bool) → String → List TaskSpec → Server → Server
start_side_tasks starts alloc [] s = s
start_side_tasks starts alloc (t ∷ tasks) s =
    start_side_tasks starts alloc tasks
      (if is_empty t.command then s else start_side_task (starts t) alloc t s)

-- startAllTasks: the first task is the main one.
unfoldable pub start_all_tasks : (TaskSpec → Bool) → String → List TaskSpec → Server → Server
start_all_tasks starts alloc [] s = s
start_all_tasks starts alloc (t ∷ tasks) s =
    start_side_tasks starts alloc tasks
      (if is_empty t.command then s else start_main_task (starts t) alloc t s)
