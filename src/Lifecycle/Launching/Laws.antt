-- ===== src/Lifecycle/Launching/Laws.antt =====
-- Starting the agent keeps what survives saves (runtime/ops.go, markLaunched,
-- markTransportLaunched).
use gc_runtime_nomad.Base.{ℕ, not, ◌||◌, List, [], ◌∷◌, String, ◌==◌, str_eq, trim_space}
use gc_runtime_nomad.Lifecycle.Types.{StageConfig}
use gc_runtime_nomad.Lifecycle.World.{Lifecycle, World}
use gc_runtime_nomad.Lifecycle.World.Keeping.{
  Keeps, Closed, Keeps-bind, Keeps-call, Keeps-attempt, Keeps-if, Keeps-pure, Keeps-raise,
  Keeps-annotate,
}
use gc_runtime_nomad.Lifecycle.Sidecar.Laws.{load-Keeps}
use gc_runtime_nomad.Lifecycle.Alloc.Laws.{
  await_exec_alloc_ready-Keeps, retry_alloc_exec_ready-Keeps,
}
use gc_runtime_nomad.Lifecycle.Launch.Laws.{confirm_launched-Keeps}
use gc_runtime_nomad.Lifecycle.Prime.Laws.{startup_prime_detached-Keeps}
use gc_runtime_nomad.Lifecycle.Launching.{
  launch_exited, launch_once, launch_with_command, launch, recorded_launch, mark_launched,
  mark_transport_launched,
}

module _ {N : Type 0} {P : World N → Type 0} (closed : Closed P) (l : Lifecycle N) where
  launch_exited-Keeps : (answer : ℕ × String × String) → Keeps P (launch_exited l answer)
  unfolding launch_exited
  launch_exited-Keeps answer =
      Keeps-if (answer.0 == 0) _ _ (λ _. Keeps-pure tt) (λ _. Keeps-raise _)

  launch_once-Keeps :
      (alloc : String) (command : List String) → Keeps P (launch_once l alloc command)
  unfolding launch_once
  launch_once-Keeps alloc command =
      Keeps-bind _ _ (Keeps-annotate _ _ (Keeps-call _ closed)) launch_exited-Keeps

  launch_with_command-Keeps :
      (session : String) (command : List String) → Keeps P (launch_with_command l session command)
  unfolding launch_with_command
  launch_with_command-Keeps session command =
      Keeps-bind _ _ (await_exec_alloc_ready-Keeps closed l session)
        λ alloc. retry_alloc_exec_ready-Keeps closed l _ (launch_once-Keeps alloc command)

  launch-Keeps :
      (session : String) (cfg : StageConfig) (work_dir command : String)
      → Keeps P (launch l session cfg work_dir command)
  unfolding launch
  launch-Keeps session cfg work_dir command =
      Keeps-if (str_eq (trim_space command) "") _ _ (λ _. Keeps-raise _)
        (λ _. launch_with_command-Keeps session _)

  recorded_launch-Keeps :
      (session work_dir command : String) → Keeps P (recorded_launch l session work_dir command)
  unfolding recorded_launch
  recorded_launch-Keeps session work_dir command =
      Keeps-if (not (str_eq work_dir "" || str_eq command "")) _ _ (λ _. Keeps-pure _)
        λ _. Keeps-bind _ _ (Keeps-attempt _ (load-Keeps closed l session)) λ r. Keeps-pure _

  pub mark_launched-Keeps :
      (session : String) (cfg : StageConfig) → Keeps P (mark_launched l session cfg)
  unfolding mark_launched
  mark_launched-Keeps session cfg = Keeps-bind _ _ (recorded_launch-Keeps session _ _) λ found.
      Keeps-bind _ _ (launch-Keeps session cfg _ _) λ _.
        Keeps-bind _ _ (confirm_launched-Keeps closed l session _ _ _)
          λ _. startup_prime_detached-Keeps closed l session cfg

  pub mark_transport_launched-Keeps :
      (session : String) (transport : List String)
      → Keeps P (mark_transport_launched l session transport)
  unfolding mark_transport_launched
  mark_transport_launched-Keeps session (a ∷ b ∷ c ∷ d ∷ e ∷ pane ∷ []) =
      Keeps-bind _ _ (Keeps-attempt _ (load-Keeps closed l session)) λ r.
        Keeps-bind _ _ (launch_with_command-Keeps session _) λ _.
          Keeps-bind _ _ (Keeps-attempt _ (load-Keeps closed l session)) λ again.
            Keeps-bind _ _ (confirm_launched-Keeps closed l session _ _ _)
              λ _. startup_prime_detached-Keeps closed l session _
  mark_transport_launched-Keeps session [] = Keeps-raise _
  mark_transport_launched-Keeps session (a ∷ []) = Keeps-raise _
  mark_transport_launched-Keeps session (a ∷ b ∷ []) = Keeps-raise _
  mark_transport_launched-Keeps session (a ∷ b ∷ c ∷ []) = Keeps-raise _
  mark_transport_launched-Keeps session (a ∷ b ∷ c ∷ d ∷ []) = Keeps-raise _
  mark_transport_launched-Keeps session (a ∷ b ∷ c ∷ d ∷ e ∷ []) = Keeps-raise _
  mark_transport_launched-Keeps session (a ∷ b ∷ c ∷ d ∷ e ∷ f ∷ g ∷ rest) = Keeps-raise _
