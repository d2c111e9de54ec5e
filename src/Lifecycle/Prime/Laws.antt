-- ===== src/Lifecycle/Prime/Laws.antt =====
-- Handing the startup prompt to the box keeps what survives saves (runtime/prime.go,
-- startupPrimeDetached).
use gc_runtime_nomad.Base.{ℕ, Bool, true, false, Option, none, some, String, ◌==◌, str_eq}
use gc_runtime_nomad.Lifecycle.Error.{Result, ok, err}
use gc_runtime_nomad.Lifecycle.Types.{Binding, StageConfig}
use gc_runtime_nomad.Lifecycle.World.{Lifecycle, World}
use gc_runtime_nomad.Lifecycle.World.Keeping.{
  Keeps, Closed, Keeps-bind, Keeps-call, Keeps-attempt, Keeps-lift, Keeps-if, Keeps-pure,
  Keeps-raise, Keeps-annotate,
}
use gc_runtime_nomad.Lifecycle.Sidecar.Laws.{load-Keeps}
use gc_runtime_nomad.Lifecycle.Alloc.Laws.{current_alloc-Keeps}
use gc_runtime_nomad.Lifecycle.Stage.{startup_prompt}
use gc_runtime_nomad.Lifecycle.Stage.Laws.{exec_stage-Keeps}
use gc_runtime_nomad.Lifecycle.Prime.{
  prime_window_exists, spawn_prime, stage_prime, prime_unless, prime_bound, prime_from,
  startup_prime_detached,
}

module _ {N : Type 0} {P : World N → Type 0} (closed : Closed P) (l : Lifecycle N) where
  prime_window_exists-Keeps : (session : String) → Keeps P (prime_window_exists l session)
  unfolding prime_window_exists
  prime_window_exists-Keeps session =
      Keeps-bind _ _ (current_alloc-Keeps closed l session)
        λ alloc. Keeps-bind _ _ (Keeps-call _ closed) λ answer. Keeps-pure _

  spawn_prime-Keeps : (session : String) → Keeps P (spawn_prime l session)
  unfolding spawn_prime
  spawn_prime-Keeps session = Keeps-bind _ _ (current_alloc-Keeps closed l session) λ alloc.
      Keeps-bind _ _ (Keeps-annotate _ _ (Keeps-call _ closed))
        λ answer. Keeps-if (answer.0 == 0) _ _ (λ _. Keeps-pure tt) (λ _. Keeps-raise _)

  stage_prime-Keeps :
      (session text : String) (cfg : StageConfig) → Keeps P (stage_prime l session text cfg)
  unfolding stage_prime
  stage_prime-Keeps session text cfg = Keeps-bind _ _ (Keeps-annotate _ _ (Keeps-lift _)) λ entries.
      Keeps-bind _ _ (Keeps-annotate _ _ (exec_stage-Keeps closed l session _ _))
        λ _. spawn_prime-Keeps session

  prime_unless-Keeps :
      (session text : String) (cfg : StageConfig) (r : Result Bool)
      → Keeps P (prime_unless l session text cfg r)
  unfolding prime_unless
  prime_unless-Keeps session text cfg (err e) = Keeps-pure tt
  prime_unless-Keeps session text cfg (ok true) = Keeps-pure tt
  prime_unless-Keeps session text cfg (ok false) = stage_prime-Keeps session text cfg

  prime_from-Keeps :
      (session text : String) (cfg : StageConfig) (o : Option Binding)
      → Keeps P (prime_from l session text cfg o)
  unfolding prime_from prime_bound
  prime_from-Keeps session text cfg none = Keeps-raise _
  prime_from-Keeps session text cfg (some b) = prime_bound-Keeps b.prompted_at
    where
      prime_bound-Keeps : (o : Option ℕ) → Keeps P (prime_bound l session text cfg o)
      prime_bound-Keeps (some at) = Keeps-pure tt
      prime_bound-Keeps none =
          Keeps-bind _ _ (Keeps-attempt _ (prime_window_exists-Keeps session))
            λ r. prime_unless-Keeps session text cfg r

  pub startup_prime_detached-Keeps :
      (session : String) (cfg : StageConfig) → Keeps P (startup_prime_detached l session cfg)
  unfolding startup_prime_detached
  startup_prime_detached-Keeps session cfg =
      Keeps-if (str_eq (startup_prompt cfg) "") _ _ (λ _. Keeps-pure tt)
        λ _. Keeps-bind _ _ (load-Keeps closed l session) λ o. prime_from-Keeps session _ cfg o
