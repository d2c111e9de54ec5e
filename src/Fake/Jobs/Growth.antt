-- ===== src/Fake/Jobs/Growth.antt =====
-- How the index grows when jobs are registered and stopped and tasks change their state
-- (fakenomad/fakenomad.go, bumpIndexLocked and its callers).
use gc_runtime_nomad.Base.{
  ℕ, suc, ◌+◌, ◌≤◌, ◌<◌, ◌^◌, Bool, true, false, List, [], ◌∷◌, String, ◌≡◌, refl, lookup, insert,
  erase, length, str_eq, arith, if◌then◌else◌, Bool-cases, Option-cases, inl, inr,
}
use gc_runtime_nomad.Fake.State.{TaskSpec, Job, Allocation, Server, next_uint64, bump_index_locked}
use gc_runtime_nomad.Fake.Allocs.{
  touch, set_task_state_locked, set_task_state, main_task_is, main_task_ends, set_alloc_status,
  terminal_alloc_status, start_main_task, start_side_task, start_side_tasks, start_all_tasks,
  is_empty,
}
use gc_runtime_nomad.Fake.Messages.{JobSpec, or_else}
use gc_runtime_nomad.Fake.Jobs.{register_job, deregister_job}
use gc_runtime_nomad.Fake.Jobs.Within.{
  JobsWithin, Grows, jobs_later, allocs_later, JobsWithin-insert, AllocsWithin-insert,
  JobsWithin-erase, AllocsWithin-stop_allocs, next_lem,
}

pub bump-Grows : (s : Server) → s.index + 1 < 2 ^ 64 → Grows s (bump_index_locked s)
unfolding bump_index_locked
bump-Grows s h = (
  omega (arith, next_lem s.index h),
  λ p. (
    jobs_later s.index _ s.jobs (omega (arith, next_lem s.index h)) p.0,
    allocs_later s.index _ s.allocs (omega (arith, next_lem s.index h)) p.1,
  ),
)

touch-Grows :
    (alloc : String) (a : Allocation) (s : Server)
    → s.index + 1 < 2 ^ 64
    → Grows s (touch alloc a s)
unfolding touch bump_index_locked
touch-Grows alloc a s h =
    let (up, keep) = bump-Grows s h in
    (
      up,
      λ p. (
        (keep p).0,
        AllocsWithin-insert (bump_index_locked s).index alloc
            (record a { modify_index = (bump_index_locked s).index }) s.allocs (omega arith)
            (keep p).1,
      ),
    )

-- A touch moves the index by one.
touch_index :
    (alloc : String) (a : Allocation) (s : Server)
    → s.index + 1 < 2 ^ 64
    → (touch alloc a s).index ≡ s.index + 1
unfolding touch bump_index_locked
touch_index alloc a s h = next_lem s.index h

-- Writing a job under the new index.
pub job_write-Grows :
    (id : String) (j : Job) (s : Server)
    → s.index + 1 < 2 ^ 64
    → j.modify_index ≡ (bump_index_locked s).index
    → Grows s (record (bump_index_locked s) { jobs = insert id j s.jobs })
unfolding bump_index_locked
job_write-Grows id j s h now =
    let (up, keep) = bump-Grows s h in
    (
      up,
      λ p. (
        JobsWithin-insert (next_uint64 s.index) id j s.jobs (omega (arith, now)) (keep p).0,
        (keep p).1,
      ),
    )

pub register_job-Grows :
    (spec : JobSpec) (path_id : String) (s : Server)
    → s.index + 1 < 2 ^ 64
    → Grows s (register_job spec path_id s).1
unfolding register_job
register_job-Grows spec path_id s h = elim (Bool-cases (str_eq (or_else spec.id path_id) "")) [
  | inl missing ↦ simp (missing, register_job) (omega arith, λ p. p)
  | inr named ↦ simp (named, register_job) (job_write-Grows (or_else spec.id path_id) _ s h refl)
]

pub deregister_job-Grows :
    (id : String) (purge : Bool) (s : Server)
    → s.index + 1 < 2 ^ 64
    → Grows s (deregister_job id purge s).1
unfolding deregister_job bump_index_locked
deregister_job-Grows id purge s h = elim (Option-cases (lookup id s.jobs)) [
  | inl missing ↦ simp (missing, deregister_job) (omega arith, λ p. p)
  | inr (job, found) ↦
      let (up, keep) = bump-Grows s h in
      simp (found, deregister_job)
        (
          up,
          λ p. (
            erased purge (keep p).0,
            AllocsWithin-stop_allocs (next_uint64 s.index) id s.allocs (keep p).1,
          ),
        )
]
  where
    erased :
        (q : Bool)
        → JobsWithin (next_uint64 s.index) s.jobs
        → JobsWithin (next_uint64 s.index) (if q then erase id s.jobs else s.jobs)
    erased true p = JobsWithin-erase (next_uint64 s.index) id s.jobs p
    erased false p = p

-- At most `k` more than before.
abbrev pub GrowsBy : ℕ → Server → Server → Type 0
GrowsBy k s s' = Grows s s' × (s'.index ≤ s.index + k)

touch-GrowsBy :
    (alloc : String) (a : Allocation) (s : Server)
    → s.index + 1 < 2 ^ 64
    → GrowsBy 1 s (touch alloc a s)
touch-GrowsBy alloc a s h = (touch-Grows alloc a s h, omega (arith, touch_index alloc a s h))

same-GrowsBy : (s : Server) → GrowsBy 1 s s
same-GrowsBy s = ((omega arith, λ p. p), omega arith)

pub set_task_state-GrowsBy :
    (alloc task state : String) (s : Server)
    → s.index + 1 < 2 ^ 64
    → GrowsBy 1 s (set_task_state alloc task state s).1
unfolding set_task_state
set_task_state-GrowsBy alloc task state s h = elim (Option-cases (lookup alloc s.allocs)) [
  | inl missing ↦ simp (missing, set_task_state) (same-GrowsBy s)
  | inr (a, found) ↦
      simp (found, set_task_state) (touch-GrowsBy alloc (set_task_state_locked task state a) s h)
]

pub set_alloc_status-GrowsBy :
    (alloc status : String) (s : Server)
    → s.index + 1 < 2 ^ 64
    → GrowsBy 1 s (set_alloc_status alloc status s).1
unfolding set_alloc_status
set_alloc_status-GrowsBy alloc status s h = elim (Option-cases (lookup alloc s.allocs)) [
  | inl missing ↦ simp (missing, set_alloc_status) (same-GrowsBy s)
  | inr (a, found) ↦
      simp (found, set_alloc_status) (touch-GrowsBy alloc (record a { client_status = status }) s h)
]

main_task_is-GrowsBy :
    (alloc task status : String) (s : Server)
    → s.index + 1 < 2 ^ 64
    → GrowsBy 1 s (main_task_is alloc task status s)
unfolding main_task_is
main_task_is-GrowsBy alloc task status s h = elim (Option-cases (lookup alloc s.allocs)) [
  | inl missing ↦ simp (missing, main_task_is) (same-GrowsBy s)
  | inr (a, found) ↦
      simp (found, main_task_is)
        (touch-GrowsBy alloc
          (set_task_state_locked task status (record a { client_status = status })) s h)
]

pub main_task_ends-GrowsBy :
    (clean : Bool) (alloc : String) (task : TaskSpec) (s : Server)
    → s.index + 1 < 2 ^ 64
    → GrowsBy 1 s (main_task_ends clean alloc task s)
unfolding main_task_ends
main_task_ends-GrowsBy clean alloc task s h = elim (Option-cases (lookup alloc s.allocs)) [
  | inl missing ↦ simp (missing, main_task_ends) (same-GrowsBy s)
  | inr (a, found) ↦ elim (Bool-cases (terminal_alloc_status a.client_status)) [
    | inl over ↦ simp (found, over, main_task_ends) (same-GrowsBy s)
    | inr lives ↦ simp (found, lives, main_task_ends) (main_task_is-GrowsBy alloc task.name _ s h)
  ]
]

-- One growth after another.
pub Grows-trans : (s t u : Server) → Grows s t → Grows t u → Grows s u
Grows-trans s t u (up, keep) (up', keep') = (omega (arith, up, up'), λ p. keep' (keep p))

GrowsBy-suc : (k : ℕ) (s t u : Server) → GrowsBy 1 s t → GrowsBy k t u → GrowsBy (suc k) s u
GrowsBy-suc k s t u (g, most) (g', most') = (Grows-trans s t u g g', omega (arith, most, most'))

-- A task is started, or skipped for want of a command.
skip-GrowsBy : (skip : Bool) (s t : Server) → GrowsBy 1 s t → GrowsBy 1 s (if skip then s else t)
skip-GrowsBy true s t g = same-GrowsBy s
skip-GrowsBy false s t g = g

start_side_tasks-GrowsBy :
    (starts : TaskSpec → Bool) (alloc : String) (tasks : List TaskSpec) (s : Server)
    → s.index + length tasks < 2 ^ 64
    → GrowsBy (length tasks) s (start_side_tasks starts alloc tasks s)
unfolding start_side_tasks start_side_task
start_side_tasks-GrowsBy starts alloc [] s h = ((omega arith, λ p. p), omega arith)
start_side_tasks-GrowsBy starts alloc (t ∷ tasks) s h =
    let first = skip-GrowsBy (is_empty t.command) s _ (
      set_task_state-GrowsBy alloc t.name (if starts t then "running" else "failed") s
        (omega (arith, h))) in
    let rest =
      start_side_tasks-GrowsBy starts alloc tasks
        (if is_empty t.command then s else start_side_task (starts t) alloc t s)
        (omega (arith, h, first.1)) in
    GrowsBy-suc (length tasks) s
      (if is_empty t.command then s else start_side_task (starts t) alloc t s)
      (start_side_tasks starts alloc tasks
        (if is_empty t.command then s else start_side_task (starts t) alloc t s))
      first rest

pub start_all_tasks-GrowsBy :
    (starts : TaskSpec → Bool) (alloc : String) (tasks : List TaskSpec) (s : Server)
    → s.index + length tasks < 2 ^ 64
    → GrowsBy (length tasks) s (start_all_tasks starts alloc tasks s)
unfolding start_all_tasks start_main_task
start_all_tasks-GrowsBy starts alloc [] s h = ((omega arith, λ p. p), omega arith)
start_all_tasks-GrowsBy starts alloc (t ∷ tasks) s h =
    let first = skip-GrowsBy (is_empty t.command) s _ (
      main_task_is-GrowsBy alloc t.name (if starts t then "running" else "failed") s
        (omega (arith, h))) in
    let rest =
      start_side_tasks-GrowsBy starts alloc tasks
        (if is_empty t.command then s else start_main_task (starts t) alloc t s)
        (omega (arith, h, first.1)) in
    GrowsBy-suc (length tasks) s
      (if is_empty t.command then s else start_main_task (starts t) alloc t s)
      (start_side_tasks starts alloc tasks
        (if is_empty t.command then s else start_main_task (starts t) alloc t s))
      first rest
