-- ===== src/Lifecycle/Alloc/Retry.antt =====
-- What the retry of a not yet ready allocation runs (runtime/ops.go, retryAllocExecReady).
use gc_runtime_nomad.Base.{
  ℕ, zero, suc, ◌≤◌, Bool, true, false, not, ◌≡◌, refl, ap, arith, if◌then◌else◌,
}
use gc_runtime_nomad.Lifecycle.Error.{Result}
use gc_runtime_nomad.Lifecycle.World.{Lifecycle, World, M, observe, lift, ◌>>=◌, ◌>>◌}
use gc_runtime_nomad.Lifecycle.Alloc.{retryable, retry, retry_alloc_exec_ready}

module _ {N A : Type 0} (l : Lifecycle N) (operation : M N A) where
  -- The world after a quarter of a second's sleep.
  abbrev pub rested : World N → World N
  rested w = record w { outside = l.sleep 250000000 w.outside }

  -- From `w` the operation failed `n` times with an error that may pass, each time followed by a
  -- sleep, and left `v`.
  pub data Retried : ℕ → World N → World N → Type 0 where
    start : {w : World N} → Retried zero w w
    again :
        {n : ℕ} {w v : World N} {r : Result A}
        → r ≡ (operation w).0
        → retryable l r ≡ true
        → Retried n (rested (operation w).1) v
        → Retried (suc n) w v

  -- `x` is what the last run answered, and `n` earlier ones failed; all the runs were used up if it
  -- may still pass.
  abbrev pub IsLastRun : ℕ → World N → Result A × World N → Type 0
  IsLastRun left w x =
      (n : ℕ) × (v : World N) × (n ≤ left)
      × Retried n w v
      × (operation v ≡ x)
      × (retryable l x.0 ≡ true → n ≡ left)

  -- After one run: it was the last one, or it may pass and the rest run.
  run_once :
      (left : ℕ) (w : World N) (t : Bool)
      → retryable l (operation w).0 ≡ t
      → IsLastRun left (rested (operation w).1) (retry l left operation (rested (operation w).1))
      → IsLastRun (suc left) w (
          (if not t
              then lift (operation w).0
              else (observe (λ n. (tt, l.sleep 250000000 n)) >> retry l left operation))
            (operation w).1)
  unfolding ◌>>=◌
  run_once left w false over rest =
      (zero, w, omega arith, start, refl, λ may. absurd (cc (over, may)))
  run_once left w true may (n, v, within, tried, same, all) =
      (suc n, v, omega (arith, within), again refl may tried, same, λ q. ap suc (all q))

  retry-IsLastRun : (left : ℕ) (w : World N) → IsLastRun left w (retry l left operation w)
  unfolding retry ◌>>=◌
  retry-IsLastRun zero w = (zero, w, omega arith, start, refl, λ _. refl)
  retry-IsLastRun (suc left) w = run_once left w _ refl (retry-IsLastRun left _)

-- The retry of an operation answers what one run of the operation answered; that run comes after at
-- most 19 others, each of which failed with an error that may pass and was followed by a sleep of a
-- quarter of a second; and if its answer is such an error too, there were exactly 19.
pub retry_alloc_exec_ready-IsLastRun :
    {N A : Type 0} (l : Lifecycle N) (operation : M N A) (w : World N)
    → IsLastRun l operation 19 w (retry_alloc_exec_ready l operation w)
unfolding retry_alloc_exec_ready
retry_alloc_exec_ready-IsLastRun l operation w = retry-IsLastRun l operation 19 w

module _ {N A : Type 0} (l : Lifecycle N) (operation : M N A) where
  -- One round of the retry, by whether the run's error may pass.
  round :
      (left : ℕ) (w : World N) (x : Result A × World N) (t : Bool)
      → retryable l (operation w).0 ≡ t
      → (t ≡ true → retry l left operation (rested l operation (operation w).1) ≡ x)
      → (t ≡ false → operation w ≡ x)
      → (if not t
            then lift (operation w).0
            else (observe (λ n. (tt, l.sleep 250000000 n)) >> retry l left operation))
          (operation w).1
        ≡ x
  unfolding ◌>>=◌
  round left w x true may goes_on ends = goes_on refl
  round left w x false over goes_on ends = ends refl

  settles :
      (left : ℕ) {n : ℕ} {w v : World N}
      → Retried l operation n w v
      → n ≤ left
      → retryable l (operation v).0 ≡ false
      → retry l left operation w ≡ operation v
  unfolding retry ◌>>=◌
  settles zero start within over = refl
  settles (suc left) {w = w} start within over =
      round left w (operation w) _ refl (λ may. absurd (cc (may, over))) (λ _. refl)
  settles zero (again is_run may more) within over = absurd (omega (arith, within))
  settles (suc left) {w = w} {v = v} (again is_run may more) within over =
      round left w (operation v) _ refl (λ _. settles left more (omega (arith, within)) over)
        (λ ended. absurd (cc (ended, may, is_run)))

-- An operation that settles within its 20 runs is waited for: if from some world it fails at most 19
-- times with an error that may pass, each time followed by a sleep of a quarter of a second, and then
-- returns or fails with another error, then the retry ends with that answer and in that world.
pub retry_alloc_exec_ready-settles :
    {N A : Type 0} (l : Lifecycle N) (operation : M N A) (n : ℕ) (w v : World N)
    → Retried l operation n w v
    → n ≤ 19
    → retryable l (operation v).0 ≡ false
    → retry_alloc_exec_ready l operation w ≡ operation v
unfolding retry_alloc_exec_ready
retry_alloc_exec_ready-settles l operation n w v tried within over =
    settles l operation 19 tried within over
