-- ===== src/Fake/Jobs/Indices.antt =====
-- The server's index along a run, and the indices of jobs and allocations (fakenomad/fakenomad.go,
-- bumpIndexLocked and the handlers that call it).
use gc_runtime_nomad.Base.{
  ℕ, ◌+◌, ◌<◌, ◌^◌, Bool, true, false, some, [], String, Dict, ◌≡◌, refl, lookup, insert, length,
  arith, if◌then◌else◌, Option-cases, inl, inr,
}
use gc_runtime_nomad.Fake.State.{TaskSpec, Job, Allocation, Server, next_uint64, bump_index_locked}
use gc_runtime_nomad.Fake.Allocs.{
  set_task_state, set_alloc_status, place_alloc, main_task_ends, start_all_tasks,
  default_alloc_files,
}
use gc_runtime_nomad.Fake.Messages.{JobSpec, Response}
use gc_runtime_nomad.Fake.Jobs.{
  register_job, assign_ports, child_id, write_child, alloc_id, place_child, dispatch_child,
  dispatch_job, deregister_job,
}
use gc_runtime_nomad.Fake.Jobs.Within.{Grows, AllocsWithin-insert, next_lem}
use gc_runtime_nomad.Fake.Jobs.Growth.{
  GrowsBy, Grows-trans, bump-Grows, job_write-Grows, register_job-Grows, deregister_job-Grows,
  set_task_state-GrowsBy, set_alloc_status-GrowsBy, main_task_ends-GrowsBy, start_all_tasks-GrowsBy,
}

-- Writing an allocation under the new index.
alloc_write-Grows :
    (id : String) (a : Allocation) (s : Server)
    → s.index + 1 < 2 ^ 64
    → a.modify_index ≡ (bump_index_locked s).index
    → Grows s (record (bump_index_locked s) { allocs = insert id a s.allocs })
unfolding bump_index_locked
alloc_write-Grows id a s h now =
    let (up, keep) = bump-Grows s h in
    (
      up,
      λ p. (
        (keep p).0,
        AllocsWithin-insert (next_uint64 s.index) id a s.allocs (omega (arith, now)) (keep p).1,
      ),
    )

place_alloc-Grows :
    (job status : String) (s : Server) → s.index + 1 < 2 ^ 64 → Grows s (place_alloc job status s).1
unfolding place_alloc
place_alloc-Grows job status s h =
    alloc_write-Grows _ _ (record s { disp_seq = next_uint64 s.disp_seq }) h refl

bump_index : (s : Server) → s.index + 1 < 2 ^ 64 → (bump_index_locked s).index ≡ s.index + 1
unfolding bump_index_locked
bump_index s h = next_lem s.index h

write_child-Grows :
    (now : ℕ) (id : String) (parent : Job) (meta : Dict String) (s : Server)
    → s.index + 1 < 2 ^ 64
    → GrowsBy 1 s (write_child now id parent meta s)
unfolding write_child
write_child-Grows now id parent meta s h =
    let counted = record s { disp_seq = next_uint64 s.disp_seq } in
    (job_write-Grows _ _ counted h refl, omega (arith, bump_index counted h))

place_child-Grows :
    (child : String) (parent : Job) (ports : Dict ℕ) (s : Server)
    → s.index + 1 < 2 ^ 64
    → GrowsBy 1 s (place_child child parent ports s)
unfolding place_child
place_child-Grows child parent ports s h =
    let filed = record s {
      alloc_files =
          insert (alloc_id s.disp_seq) (default_alloc_files (alloc_id s.disp_seq)) s.alloc_files;
    } in
    (alloc_write-Grows _ _ filed h refl, omega (arith, bump_index filed h))

Grows-if :
    (b : Bool) (r r' : Response) (s t u : Server)
    → Grows s t
    → Grows s u
    → Grows s (if◌then◌else◌ {A = Response × Server} b (r, t) (r', u)).1
Grows-if true r r' s t u gt gu = gt
Grows-if false r r' s t u gt gu = gu

dispatch_child-Grows :
    (starts : TaskSpec → Bool) (now : ℕ) (id : String) (parent : Job) (meta : Dict String)
    (s : Server)
    → s.index + 2 + length parent.tasks < 2 ^ 64
    → Grows s (dispatch_child starts now id parent meta s).1
unfolding dispatch_child
dispatch_child-Grows starts now id parent meta s h =
    let written = write_child now id parent meta s in
    let first = write_child-Grows now id parent meta s (omega (arith, h)) in
    let (ports, seq) = assign_ports parent.port_labels written.port_seq [] in
    let s' = record written { port_seq = seq } in
    let child = child_id id now written.disp_seq in
    let placed = place_child-Grows child parent ports s' (omega (arith, h, first.1)) in
    let started =
      start_all_tasks-GrowsBy starts (alloc_id s'.disp_seq) parent.tasks
        (place_child child parent ports s') (omega (arith, h, first.1, placed.1)) in
    let final =
      start_all_tasks starts (alloc_id s'.disp_seq) parent.tasks
        (place_child child parent ports s') in
    Grows-if written.no_place_allocs _ _ s s' final first.0 (
      Grows-trans s s' final first.0
        (Grows-trans s' (place_child child parent ports s') final placed.0 started.0))

dispatch_job-Grows :
    (starts : TaskSpec → Bool) (now : ℕ) (id : String) (meta : Dict String) (s : Server)
    → ((parent : Job) → lookup id s.jobs ≡ some parent → s.index + 2 + length parent.tasks < 2 ^ 64)
    → Grows s (dispatch_job starts now id meta s).1
unfolding dispatch_job
dispatch_job-Grows starts now id meta s h = elim (Option-cases (lookup id s.jobs)) [
  | inl missing ↦ simp (missing, dispatch_job) (omega arith, λ p. p)
  | inr (parent, found) ↦
      simp (found, dispatch_job) (dispatch_child-Grows starts now id parent meta s (h parent found))
]

-- What changes the index: a request that registers, dispatches or stops a job, a test that sets a
-- status or places an allocation, and the end of a main task. The index must not run over.
pub data Step : Server → Server → Type 0 where
  registers :
      (spec : JobSpec) (path_id : String) (s : Server)
      → s.index + 1 < 2 ^ 64
      → Step s (register_job spec path_id s).1
  dispatches :
      (starts : TaskSpec → Bool) (now : ℕ) (id : String) (meta : Dict String) (s : Server)
      → ((parent : Job)
          → lookup id s.jobs ≡ some parent
          → s.index + 2 + length parent.tasks < 2 ^ 64)
      → Step s (dispatch_job starts now id meta s).1
  deregisters :
      (id : String) (purge : Bool) (s : Server)
      → s.index + 1 < 2 ^ 64
      → Step s (deregister_job id purge s).1
  sets_status :
      (alloc status : String) (s : Server)
      → s.index + 1 < 2 ^ 64
      → Step s (set_alloc_status alloc status s).1
  sets_task :
      (alloc task state : String) (s : Server)
      → s.index + 1 < 2 ^ 64
      → Step s (set_task_state alloc task state s).1
  places :
      (job status : String) (s : Server)
      → s.index + 1 < 2 ^ 64
      → Step s (place_alloc job status s).1
  ends :
      (clean : Bool) (alloc : String) (task : TaskSpec) (s : Server)
      → s.index + 1 < 2 ^ 64
      → Step s (main_task_ends clean alloc task s)

pub data Reach (s : Server) : Server → Type 0 where
  here : Reach s s
  next : {t u : Server} → Reach s t → Step t u → Reach s u

Step-Grows : {s t : Server} → Step s t → Grows s t
Step-Grows (registers spec path_id s h) = register_job-Grows spec path_id s h
Step-Grows (dispatches starts now id meta s h) = dispatch_job-Grows starts now id meta s h
Step-Grows (deregisters id purge s h) = deregister_job-Grows id purge s h
Step-Grows (sets_status alloc status s h) = (set_alloc_status-GrowsBy alloc status s h).0
Step-Grows (sets_task alloc task state s h) = (set_task_state-GrowsBy alloc task state s h).0
Step-Grows (places job status s h) = place_alloc-Grows job status s h
Step-Grows (ends clean alloc task s h) = (main_task_ends-GrowsBy clean alloc task s h).0

-- Along any sequence of registrations, dispatches, deregistrations, status changes and task ends
-- in which the 64-bit index does not run over, the server's index never falls, and where no job and
-- no allocation was newer than the index at the start, none is at the end.
pub Reach-Grows : {s t : Server} → Reach s t → Grows s t
Reach-Grows here = (omega arith, λ p. p)
Reach-Grows {s = s} (next {t = t} {u = u} reach step) =
    Grows-trans s t u (Reach-Grows reach) (Step-Grows step)
