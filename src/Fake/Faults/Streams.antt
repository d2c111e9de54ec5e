-- ===== src/Fake/Faults/Streams.antt =====
-- How many exec streams a test breaks (fakenomad/fakenomad.go, FailExecNext, takeExecFailure).
use gc_runtime_nomad.Base.{
  ℕ, zero, suc, ◌+◌, Bool, true, false, List, [], ◌∷◌, ◌++◌, ◌≡◌, refl, ap, subst, ◌∙◌, arith,
}
use gc_runtime_nomad.Fake.State.{Server}
use gc_runtime_nomad.Fake.Faults.{fail_exec_next, take_exec_failure}

-- The answers of `count` exec streams, one after the other.
abbrev pub failures : ℕ → Server → List Bool
failures zero s = []
failures (suc count) s = (take_exec_failure s).0 ∷ failures count (take_exec_failure s).1

abbrev pub repeat : ℕ → Bool → List Bool
repeat zero b = []
repeat (suc n) b = b ∷ repeat n b

take_done : (s : Server) → s.exec_fails ≡ 0 → take_exec_failure s ≡ (false, s)
unfolding take_exec_failure
take_done s h = ground (arith, h)

take_left :
    (n : ℕ) (s : Server)
    → s.exec_fails ≡ suc n
    → take_exec_failure s ≡ (true, record s { exec_fails = n })
unfolding take_exec_failure
take_left n s h = ground (arith, h)

failures_done : (k : ℕ) (s : Server) → s.exec_fails ≡ 0 → failures k s ≡ repeat k false
failures_done zero s h = refl
failures_done (suc k) s h =
    ap (λ t. t.0 ∷ failures k t.1) (take_done s h) ∙ ap (λ l. false ∷ l) (failures_done k s h)

zero_add : (k : ℕ) → k ≡ 0 + k
zero_add k = omega arith

suc_add : (n k : ℕ) → suc (n + k) ≡ suc n + k
suc_add n k = omega arith

failures_left :
    (n k : ℕ) (s : Server) → s.exec_fails ≡ n → failures (n + k) s ≡ repeat n true ++ repeat k false
failures_left zero k s h =
    subst (λ m. failures m s ≡ repeat k false) (zero_add k) (failures_done k s h)
failures_left (suc n) k s h =
    subst (λ m. failures m s ≡ true ∷ (repeat n true ++ repeat k false)) (suc_add n k)
      (ap (λ t. t.0 ∷ failures (n + k) t.1) (take_left n s h)
        ∙ ap (λ l. true ∷ l) (failures_left n k (record s { exec_fails = n }) refl))

-- `FailExecNext(n)` breaks `n` more streams than were still to be broken, the next ones, and none
-- after them.
pub fail_exec_next-failures :
    (n k : ℕ) (s : Server)
    → failures (s.exec_fails + n + k) (fail_exec_next n s)
      ≡ repeat (s.exec_fails + n) true ++ repeat k false
unfolding fail_exec_next
fail_exec_next-failures n k s =
    failures_left (s.exec_fails + n) k (fail_exec_next n s) (ground arith)
