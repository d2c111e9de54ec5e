-- ===== src/Fake/Jobs/Deregister.antt =====
-- What deregistering a job leaves (fakenomad/fakenomad.go, deregisterJob).
use gc_runtime_nomad.Base.{
  ℕ, Bool, true, false, not, ◌&&◌, some, [], ◌∷◌, String, Dict, ◌≡◌, refl, sym, subst, lookup,
  erase, lookup-erase_self, str_eq, eq_iff, arith, Bool-cases, ◌⊎◌, inl, inr, if◌then◌else◌,
}
use gc_runtime_nomad.Fake.State.{Job, Allocation, Server, bump_index_locked}
use gc_runtime_nomad.Fake.Allocs.{terminal_alloc_status}
use gc_runtime_nomad.Fake.Messages.{json_error, job_read}
use gc_runtime_nomad.Fake.Jobs.{read_job, deregister_job, runs, of_job, stop_alloc, stop_allocs}

-- The three ways that the loop takes an allocation.
stop_alloc-cases :
    (job : String) (index : ℕ) (a : Allocation)
    → ((str_eq a.job_id job ≡ false) × (stop_alloc job index a ≡ a))
      ⊎ ((str_eq a.job_id job ≡ true)
          × (terminal_alloc_status (stop_alloc job index a).client_status ≡ true)
          × ((stop_alloc job index a).job_id ≡ a.job_id))
unfolding stop_alloc terminal_alloc_status
stop_alloc-cases job index a = elim (Bool-cases (str_eq a.job_id job)) [
  | inl same ↦ elim (Bool-cases (str_eq a.client_status "complete")) [
    | inl complete ↦ inr (same, simp (same, complete), simp (same, complete))
    | inr running ↦ elim (Bool-cases (str_eq a.client_status "failed")) [
      | inl failed ↦ inr (same, simp (same, running, failed), simp (same, running, failed))
      | inr lost ↦ inr (same, simp (same, running, lost), simp (same, running, lost))
    ]
  ]
  | inr other ↦ inl (other, simp (other))
]

stopped :
    (job : String) (index : ℕ) (a : Allocation)
    → (str_eq (stop_alloc job index a).job_id job
        && not (terminal_alloc_status (stop_alloc job index a).client_status))
      ≡ false
stopped job index a = elim (stop_alloc-cases job index a) [
  | inl (other, same) ↦ rw same (rw other refl)
  | inr (own, over, id) ↦ rw over (ground arith)
]

runs-stop_allocs :
    (job : String) (index : ℕ) (allocs : Dict Allocation)
    → runs job (stop_allocs job index allocs) ≡ false
unfolding runs stop_allocs
runs-stop_allocs job index [] = refl
runs-stop_allocs job index ((id, a) ∷ allocs) =
    rw (stopped job index a) (runs-stop_allocs job index allocs)

of_job-stop_allocs :
    (job other : String) (index : ℕ) (allocs : Dict Allocation)
    → str_eq job other ≡ false
    → of_job other (stop_allocs job index allocs) ≡ of_job other allocs
unfolding of_job stop_allocs
of_job-stop_allocs job other index [] h = refl
of_job-stop_allocs job other index ((id, a) ∷ allocs) h = elim (stop_alloc-cases job index a) [
  | inl (_, same) ↦ rw same (rw (of_job-stop_allocs job other index allocs h) refl)
  | inr (own, over, id) ↦ rw (id, apart own) (rw (of_job-stop_allocs job other index allocs h) refl)
]
  where
    apart : str_eq a.job_id job ≡ true → str_eq a.job_id other ≡ false
    apart own = ground (arith, own, h, eq_iff a.job_id job, eq_iff a.job_id other, eq_iff job other)

-- What a job's deregistration promises of the state after it.
abbrev pub IsStopped : String → Bool → Job → Server → Server → Type 0
IsStopped id purge job s s' =
    (runs id s'.allocs ≡ false)
    × ((other : String) → str_eq id other ≡ false → of_job other s'.allocs ≡ of_job other s.allocs)
    × (read_job id s' ≡ (if purge then json_error 404 "job not found" else job_read s'.index job))

-- The state after the deregistration of a job that the server has.
deregister_found :
    (id : String) (purge : Bool) (job : Job) (s : Server)
    → lookup id s.jobs ≡ some job
    → (deregister_job id purge s).1 ≡ record (bump_index_locked s) {
      jobs = if purge then erase id s.jobs else s.jobs;
      allocs = stop_allocs id (bump_index_locked s).index s.allocs;
    }
unfolding deregister_job bump_index_locked
deregister_found id purge job s h = simp (h, deregister_job)

read_after :
    (id : String) (purge : Bool) (job : Job) (s s' : Server)
    → lookup id s.jobs ≡ some job
    → s'.jobs ≡ (if purge then erase id s.jobs else s.jobs)
    → read_job id s' ≡ (if purge then json_error 404 "job not found" else job_read s'.index job)
unfolding read_job
read_after id true job s s' h same = simp (same, lookup-erase_self id s.jobs, read_job)
read_after id false job s s' h same = simp (same, h, read_job)

-- Deregistering a job that the server has leaves no allocation of it that is not terminal, leaves
-- the other jobs' allocations as they were, and leaves the job readable unless it is purged.
pub deregister_job-IsStopped :
    (id : String) (purge : Bool) (job : Job) (s : Server)
    → lookup id s.jobs ≡ some job
    → IsStopped id purge job s (deregister_job id purge s).1
deregister_job-IsStopped id purge job s h =
    subst (IsStopped id purge job s) (sym (deregister_found id purge job s h)) (
      runs-stop_allocs id _ s.allocs,
      (λ other apart. of_job-stop_allocs id other _ s.allocs apart),
      read_after id purge job s _ h refl,
    )
