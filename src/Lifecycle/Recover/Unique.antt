-- ===== src/Lifecycle/Recover/Unique.antt =====
-- What a lost binding is rebuilt from (runtime/ops.go, recoverBinding).
use gc_runtime_nomad.Base.{
  value_of, Bool, true, false, not, ◌&&◌, Option, some, List, ◌∷◌, ◌++◌, String, ◌≡◌, lookup,
  str_eq, trim_space, All,
}
use gc_runtime_nomad.Lifecycle.Error.{ok}
use gc_runtime_nomad.Lifecycle.Types.{Binding, ChildJob}
use gc_runtime_nomad.Lifecycle.World.{Lifecycle, World, saved, json}
use gc_runtime_nomad.Lifecycle.Recover.{belongs, recovered_binding}

module _ {N : Type 0} (l : Lifecycle N) (session : String) where
  -- A child of the session, in this namespace, that is not terminal.
  abbrev pub is_live_child : ChildJob → Bool
  is_live_child c = belongs l session c && not c.terminal

  -- `c` is the only such child of the list.
  abbrev pub IsOnly : ChildJob → List ChildJob → Type 0
  IsOnly c children =
      (before after : List ChildJob) × (children ≡ before ++ c ∷ after)
      × (is_live_child c ≡ true)
      × All (λ d. is_live_child d ≡ false) before
      × All (λ d. is_live_child d ≡ false) after

  -- What a recovery that succeeds saw and did.
  abbrev pub IsRecovered : Option Binding → Binding → World N → World N → Type 0
  IsRecovered prior b w w' =
      (children : List ChildJob) × (c : ChildJob) × (n : N) × (l.client.list_child_jobs
          l.parent_job_id w.outside
        ≡ (ok children, n))
      × IsOnly c children
      × (str_eq b.nonce "" ≡ false)
      × (b ≡ recovered_binding l session c (trim_space (value_of "gc_nonce" c.meta)) prior)
      × (w'.trace ≡ saved b ∷ w.trace)
      × (lookup session w'.bindings ≡ some (json b))
