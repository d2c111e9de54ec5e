-- ===== src/Fake/Faults/Queue.antt =====
-- The order in which scripted faults are used up (fakenomad/fakenomad.go, takeFault).
use gc_runtime_nomad.Base.{
  true, false, Option, none, some, List, [], ◌∷◌, ◌++◌, String, ◌≡◌, refl, ap, All, arith,
  if◌then◌else◌, Bool-cases, inl, inr,
}
use gc_runtime_nomad.Fake.State.{Fault, Server}
use gc_runtime_nomad.Fake.Faults.{matches, take_from, take_fault}

module _ (method path : String) where
  -- No fault of the queue is meant for the request.
  abbrev pub IsFree : List Fault → Type 0
  IsFree = All (λ f. matches method path f ≡ false)

  -- What is taken from a queue, and the queue that is left.
  abbrev pub IsFirst : List Fault → Option Fault → List Fault → Type 0
  IsFirst queue none left = IsFree queue × (left ≡ queue)
  IsFirst queue (some f) left =
      (before after : List Fault) × (queue ≡ before ++ f ∷ after)
      × IsFree before
      × (matches method path f ≡ true)
      × (left ≡ (if f.sticky then queue else before ++ after))

  IsFirst-cons :
      (f : Fault) (queue : List Fault) (taken : Option Fault) (left : List Fault)
      → matches method path f ≡ false
      → IsFirst queue taken left
      → IsFirst (f ∷ queue) taken (f ∷ left)
  IsFirst-cons f queue none left other (free, same) = ((other, free), ap (λ q. f ∷ q) same)
  IsFirst-cons f queue (some g) left other (before, after, parts, free, hit, rest) =
      (f ∷ before, after, ap (λ q. f ∷ q) parts, (other, free), hit, ground (arith, rest))

  take_from-IsFirst :
      (queue : List Fault)
      → IsFirst queue (take_from method path queue).0 (take_from method path queue).1
  unfolding take_from
  take_from-IsFirst [] = (tt, refl)
  take_from-IsFirst (f ∷ queue) = elim (Bool-cases (matches method path f)) [
    | inl hit ↦ rw hit ([], queue, refl, tt, hit, ground arith)
    | inr other ↦ rw other (IsFirst-cons f queue _ _ other (take_from-IsFirst queue))
  ]

-- A request takes the oldest fault that is queued for its method and path, if there is one: a
-- one-shot fault leaves the queue, a sticky one stays, and the other faults keep their order.
-- Where none is queued for it, the queue is as it was.
pub take_fault-IsFirst :
    (method path : String) (s : Server)
    → IsFirst method path s.faults (take_fault method path s).0 (take_fault method path s).1.faults
unfolding take_fault
take_fault-IsFirst method path s = take_from-IsFirst method path s.faults
