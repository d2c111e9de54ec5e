-- ===== src/Fake/Jobs/Within.antt =====
-- Jobs and allocations that were last modified at a given index or before
-- (fakenomad/fakenomad.go, the ModifyIndex of Job and Allocation).
use gc_runtime_nomad.Base.{
  ℕ, ◌+◌, ◌≤◌, ◌<◌, ◌^◌, ◌||◌, [], ◌∷◌, String, Dict, ◌≡◌, insert, erase, str_eq, arith, Bool-cases,
  inl, inr,
}
use gc_runtime_nomad.Fake.State.{Job, Allocation, Server, next_uint64}
use gc_runtime_nomad.Fake.Jobs.{stop_alloc, stop_allocs}

-- Every job and every allocation was modified at the index or before.
abbrev pub JobsWithin : ℕ → Dict Job → Type 0
JobsWithin n [] = Unit
JobsWithin n ((_, j) ∷ jobs) = (j.modify_index ≤ n) × JobsWithin n jobs

abbrev pub AllocsWithin : ℕ → Dict Allocation → Type 0
AllocsWithin n [] = Unit
AllocsWithin n ((_, a) ∷ allocs) = (a.modify_index ≤ n) × AllocsWithin n allocs

abbrev pub IsCurrent : Server → Type 0
IsCurrent s = JobsWithin s.index s.jobs × AllocsWithin s.index s.allocs

-- From `s` to `s'` the index grew, and the state is still current.
abbrev pub Grows : Server → Server → Type 0
Grows s s' = (s.index ≤ s'.index) × (IsCurrent s → IsCurrent s')

pub jobs_later : (n m : ℕ) (jobs : Dict Job) → n ≤ m → JobsWithin n jobs → JobsWithin m jobs
jobs_later n m [] h p = tt
jobs_later n m ((_, j) ∷ jobs) h p = (omega (arith, h, p.0), jobs_later n m jobs h p.1)

pub allocs_later :
    (n m : ℕ) (allocs : Dict Allocation) → n ≤ m → AllocsWithin n allocs → AllocsWithin m allocs
allocs_later n m [] h p = tt
allocs_later n m ((_, a) ∷ allocs) h p = (omega (arith, h, p.0), allocs_later n m allocs h p.1)

pub JobsWithin-insert :
    (n : ℕ) (id : String) (j : Job) (jobs : Dict Job)
    → j.modify_index ≤ n
    → JobsWithin n jobs
    → JobsWithin n (insert id j jobs)
unfolding insert
JobsWithin-insert n id j [] h p = (h, tt)
JobsWithin-insert n id j ((k, _) ∷ jobs) h p = elim (Bool-cases (str_eq k id)) [
  | inl same ↦ rw same (h, p.1)
  | inr other ↦ rw other (p.0, JobsWithin-insert n id j jobs h p.1)
]

pub AllocsWithin-insert :
    (n : ℕ) (id : String) (a : Allocation) (allocs : Dict Allocation)
    → a.modify_index ≤ n
    → AllocsWithin n allocs
    → AllocsWithin n (insert id a allocs)
unfolding insert
AllocsWithin-insert n id a [] h p = (h, tt)
AllocsWithin-insert n id a ((k, _) ∷ allocs) h p = elim (Bool-cases (str_eq k id)) [
  | inl same ↦ rw same (h, p.1)
  | inr other ↦ rw other (p.0, AllocsWithin-insert n id a allocs h p.1)
]

pub JobsWithin-erase :
    (n : ℕ) (id : String) (jobs : Dict Job) → JobsWithin n jobs → JobsWithin n (erase id jobs)
unfolding erase
JobsWithin-erase n id [] p = tt
JobsWithin-erase n id ((k, j) ∷ jobs) p = elim (Bool-cases (str_eq k id)) [
  | inl same ↦ rw same (JobsWithin-erase n id jobs p.1)
  | inr other ↦ rw other (p.0, JobsWithin-erase n id jobs p.1)
]

stop_alloc-within :
    (n : ℕ) (job : String) (a : Allocation)
    → a.modify_index ≤ n
    → (stop_alloc job n a).modify_index ≤ n
unfolding stop_alloc
stop_alloc-within n job a h = elim (Bool-cases (str_eq a.job_id job)) [
  | inl same ↦
      elim (Bool-cases (str_eq a.client_status "complete" || str_eq a.client_status "failed")) [
        | inl over ↦ simp (same, over) h
        | inr lives ↦ simp (same, lives) (omega arith)
      ]
  | inr other ↦ simp other h
]

pub AllocsWithin-stop_allocs :
    (n : ℕ) (job : String) (allocs : Dict Allocation)
    → AllocsWithin n allocs
    → AllocsWithin n (stop_allocs job n allocs)
unfolding stop_allocs
AllocsWithin-stop_allocs n job [] p = tt
AllocsWithin-stop_allocs n job ((_, a) ∷ allocs) p =
    (stop_alloc-within n job a p.0, AllocsWithin-stop_allocs n job allocs p.1)

-- No wrap-around below the bound.
pub next_lem : (n : ℕ) → n + 1 < 2 ^ 64 → next_uint64 n ≡ n + 1
next_lem n h = omega (arith, h)
