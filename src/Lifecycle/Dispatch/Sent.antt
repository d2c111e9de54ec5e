-- ===== src/Lifecycle/Dispatch/Sent.antt =====
-- The dispatch requests in a trace, up to the registration of the parent (runtime/ops.go,
-- ensureParentRegistered).
use gc_runtime_nomad.Base.{ℕ, suc, ◌≤◌, List, [], ◌∷◌, ◌≡◌, arith}
use gc_runtime_nomad.Lifecycle.World.{Lifecycle, World, M, Event, dispatch_sent}
use gc_runtime_nomad.Lifecycle.World.Keeping.{Keeps, Closed}
use gc_runtime_nomad.Lifecycle.World.Triples.{Triple, Triple-keeps}
use gc_runtime_nomad.Lifecycle.Dispatch.Laws.{Registrable, ensure_parent_registered-Keeps}
use gc_runtime_nomad.Lifecycle.Dispatch.{ensure_parent_registered}

-- The dispatch requests in a trace.
abbrev pub requests : List Event → ℕ
requests [] = 0
requests (dispatch_sent _ _ ∷ older) = suc (requests older)
requests (_ ∷ older) = requests older

module _ {N : Type 0} (n : ℕ) where
  abbrev pub Before : World N → Type 0
  Before w = requests w.trace ≡ n

  abbrev pub AtMost : World N → Type 0
  AtMost w = requests w.trace ≤ suc n

  pub closed : Closed Before
  closed = record {
    moving = λ w m h. h;
    saving = λ w b files h. h;
    copying = λ w session alloc name body h. h;
  }

  pub kept : {A : Type 0} (m : M N A) → Keeps Before m → Triple Before m (λ _. Before) AtMost
  kept m k = Triple-keeps m k (λ w h. omega (arith, h))

  Before-Registrable : Registrable Before
  Before-Registrable = record { closed = closed; registering = λ w job h. h }

  pub ensure-Keeps : (l : Lifecycle N) → Keeps Before (ensure_parent_registered l)
  ensure-Keeps l = ensure_parent_registered-Keeps Before-Registrable l
