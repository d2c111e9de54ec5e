-- ===== src/Lifecycle/Placing/Laws.antt =====
-- The look for a placement keeps what survives saves (runtime/ops.go, confirmDispatchPlaced).
use gc_runtime_nomad.Base.{ℕ, zero, suc, not, Option, none, some, String, ltb, str_eq}
use gc_runtime_nomad.Lifecycle.Types.{Binding}
use gc_runtime_nomad.Lifecycle.World.{Lifecycle, World}
use gc_runtime_nomad.Lifecycle.World.Keeping.{
  Keeps, Closed, Keeps-bind, Keeps-call, Keeps-observe, Keeps-if, Keeps-pure, Keeps-raise,
  Keeps-annotate,
}
use gc_runtime_nomad.Lifecycle.Sidecar.Laws.{load-Keeps}
use gc_runtime_nomad.Lifecycle.Roster.{any_live}
use gc_runtime_nomad.Lifecycle.Placing.{
  last_status, not_placed, placed_loop, placed_from, confirm_dispatch_placed,
}

module _ {N : Type 0} {P : World N → Type 0} (closed : Closed P) (l : Lifecycle N) where
  not_placed-Keeps : (b : Binding) (status : String) → Keeps P (not_placed l b status)
  unfolding not_placed
  not_placed-Keeps b status =
      Keeps-if (not (str_eq status "")) _ _ (λ _. Keeps-raise _)
        λ _. Keeps-bind _ _ (Keeps-observe _ closed) λ failure. Keeps-raise _

  placed_loop-Keeps :
      (fuel deadline : ℕ) (b : Binding) (status : String)
      → Keeps P (placed_loop l fuel deadline b status)
  unfolding placed_loop
  placed_loop-Keeps zero deadline b status = Keeps-raise _
  placed_loop-Keeps (suc fuel) deadline b status =
      Keeps-bind _ _ (Keeps-annotate _ _ (Keeps-call _ closed)) λ answer.
        Keeps-if (any_live answer.0) _ _ (λ _. Keeps-pure tt)
          λ _. Keeps-bind _ _ (Keeps-observe _ closed) λ now.
            Keeps-if (ltb deadline now) _ _ (λ _. not_placed-Keeps b _)
              λ _.
                Keeps-bind _ _ (Keeps-observe _ closed)
                  λ _. placed_loop-Keeps fuel deadline b (last_status status answer.0)

  placed_from-Keeps : (fuel : ℕ) (o : Option Binding) → Keeps P (placed_from l fuel o)
  unfolding placed_from
  placed_from-Keeps fuel none = Keeps-raise _
  placed_from-Keeps fuel (some b) =
      Keeps-if (str_eq b.child_job_id "") _ _ (λ _. Keeps-raise _)
        λ _. Keeps-bind _ _ (Keeps-observe _ closed) λ now. placed_loop-Keeps fuel _ b ""

  pub confirm_dispatch_placed-Keeps :
      (session : String) → Keeps P (confirm_dispatch_placed l session)
  unfolding confirm_dispatch_placed
  confirm_dispatch_placed-Keeps session =
      Keeps-bind _ _ (Keeps-annotate _ _ (load-Keeps closed l session)) (placed_from-Keeps 32)
