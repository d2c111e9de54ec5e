-- ===== src/Lifecycle/Launch/Laws.antt =====
-- What recording a launch keeps (runtime/ops.go, confirmLaunched and what it calls).
use gc_runtime_nomad.Base.{ℕ, zero, suc, not, Option, none, some, String, leb, str_eq, ◌==◌}
use gc_runtime_nomad.Lifecycle.Error.{Result, ok, err}
use gc_runtime_nomad.Lifecycle.Types.{Binding}
use gc_runtime_nomad.Lifecycle.World.{Lifecycle, World, M}
use gc_runtime_nomad.Lifecycle.World.Keeping.{
  Keeps, Closed, Keeps-bind, Keeps-call, Keeps-observe, Keeps-attempt, Keeps-pure, Keeps-raise,
  Keeps-if,
}
use gc_runtime_nomad.Lifecycle.Sidecar.Laws.{load-Keeps, save-Keeps}
use gc_runtime_nomad.Lifecycle.Alloc.Laws.{current_alloc-Keeps}
use gc_runtime_nomad.Lifecycle.Launch.{
  pane_runs_agent, pane_current_command, box_runs_an_agent, settle_again, pane_answer, verify_loop,
  verify_alloc, verify_pane_runs_agent, probe_version, probe_box_gc, warn_if_box_gc_cannot_claim,
  parsed_pid, capture_pane_pid, confirm_from, confirm_launched,
}

module _ {N : Type 0} {P : World N → Type 0} (closed : Closed P) (l : Lifecycle N) where
  pane_current_command-Keeps : (alloc : String) → Keeps P (pane_current_command l alloc)
  unfolding pane_current_command
  pane_current_command-Keeps alloc =
      Keeps-bind _ _ (Keeps-call _ closed)
        λ answer. Keeps-if (not (answer.0 == 0)) _ _ (λ _. Keeps-raise _) (λ _. Keeps-pure _)

  box_runs_an_agent-Keeps : (alloc : String) → Keeps P (box_runs_an_agent l alloc)
  unfolding box_runs_an_agent
  box_runs_an_agent-Keeps alloc =
      Keeps-bind _ _ (Keeps-attempt _ (Keeps-call _ closed)) λ r. Keeps-pure _

  settle_again-Keeps :
      (deadline : ℕ) (next : String → M N (Unit {0})) (last : String)
      → ((s : String) → Keeps P (next s))
      → Keeps P (settle_again l deadline next last)
  unfolding settle_again
  settle_again-Keeps deadline next last k = Keeps-bind _ _ (Keeps-observe _ closed) λ now.
      Keeps-if (not (leb deadline now)) _ _
        (λ _. Keeps-bind _ _ (Keeps-observe _ closed) λ _. k last)
        λ _. Keeps-if (str_eq last "") _ _ (λ _. Keeps-pure tt) (λ _. Keeps-raise _)

  pane_answer-Keeps :
      (deadline : ℕ) (next : String → M N (Unit {0})) (last : String) (r : Result String)
      → ((s : String) → Keeps P (next s))
      → Keeps P (pane_answer l deadline next last r)
  unfolding pane_answer
  pane_answer-Keeps deadline next last (err e) k = settle_again-Keeps deadline next last k
  pane_answer-Keeps deadline next last (ok command) k =
      Keeps-if (pane_runs_agent command) _ _ (λ _. Keeps-pure tt)
        (λ _. settle_again-Keeps deadline next command k)

  verify_loop-Keeps :
      (fuel deadline : ℕ) (alloc last : String) → Keeps P (verify_loop l fuel deadline alloc last)
  unfolding verify_loop
  verify_loop-Keeps zero deadline alloc last = Keeps-raise _
  verify_loop-Keeps (suc fuel) deadline alloc last =
      Keeps-bind _ _ (box_runs_an_agent-Keeps alloc) λ answer.
        Keeps-if (answer.1) _ _ (λ _. Keeps-raise _)
          λ _.
            Keeps-if (answer.0) _ _ (λ _. Keeps-pure tt)
              λ _. Keeps-bind _ _ (Keeps-attempt _ (pane_current_command-Keeps alloc)) λ pane.
                pane_answer-Keeps deadline _ last pane (verify_loop-Keeps fuel deadline alloc)

  verify_alloc-Keeps : (r : Result String) → Keeps P (verify_alloc l r)
  unfolding verify_alloc
  verify_alloc-Keeps (err e) = Keeps-pure tt
  verify_alloc-Keeps (ok alloc) =
      Keeps-bind _ _ (Keeps-observe _ closed) λ now. verify_loop-Keeps 7 _ alloc ""

  verify_pane-Keeps : (session : String) → Keeps P (verify_pane_runs_agent l session)
  unfolding verify_pane_runs_agent
  verify_pane-Keeps session =
      Keeps-bind _ _ (Keeps-attempt _ (current_alloc-Keeps closed l session)) verify_alloc-Keeps

  probe_version-Keeps :
      (alloc : String) (r : Result (ℕ × String)) → Keeps P (probe_version l alloc r)
  unfolding probe_version
  probe_version-Keeps alloc (err e) = Keeps-pure tt
  probe_version-Keeps alloc (ok _) =
      Keeps-if (not l.host_gc_known) _ _ (λ _. Keeps-pure tt)
        λ _. Keeps-bind _ _ (Keeps-attempt _ (Keeps-call _ closed)) λ _. Keeps-pure tt

  probe_box_gc-Keeps : (r : Result String) → Keeps P (probe_box_gc l r)
  unfolding probe_box_gc
  probe_box_gc-Keeps (err e) = Keeps-pure tt
  probe_box_gc-Keeps (ok alloc) =
      Keeps-bind _ _ (Keeps-attempt _ (Keeps-call _ closed)) λ r. probe_version-Keeps alloc r

  warn-Keeps : (session : String) → Keeps P (warn_if_box_gc_cannot_claim l session)
  unfolding warn_if_box_gc_cannot_claim
  warn-Keeps session =
      Keeps-bind _ _ (Keeps-attempt _ (current_alloc-Keeps closed l session)) probe_box_gc-Keeps

  parsed_pid-Keeps : (o : Option ℕ) → Keeps P (parsed_pid l o)
  unfolding parsed_pid
  parsed_pid-Keeps none = Keeps-raise _
  parsed_pid-Keeps (some pid) = Keeps-pure pid

  capture_pane_pid-Keeps : (session : String) → Keeps P (capture_pane_pid l session)
  unfolding capture_pane_pid
  capture_pane_pid-Keeps session = Keeps-bind _ _ (current_alloc-Keeps closed l session) λ alloc.
      Keeps-bind _ _ (Keeps-call _ closed)
        λ answer. Keeps-if (not (answer.0 == 0)) _ _ (λ _. Keeps-raise _) (λ _. parsed_pid-Keeps _)

  confirm_from-Keeps :
      (pid : ℕ) (work_dir command lifecycle : String) (o : Option Binding)
      → Keeps P (confirm_from l pid work_dir command lifecycle o)
  unfolding confirm_from
  confirm_from-Keeps pid work_dir command lifecycle none = Keeps-raise _
  confirm_from-Keeps pid work_dir command lifecycle (some b) = save-Keeps closed l _

  pub confirm_launched-Keeps :
      (session work_dir command lifecycle : String)
      → Keeps P (confirm_launched l session work_dir command lifecycle)
  unfolding confirm_launched
  confirm_launched-Keeps session work_dir command lifecycle =
      Keeps-bind _ _ (Keeps-attempt _ (verify_pane-Keeps session)) λ _.
        Keeps-bind _ _ (warn-Keeps session) λ _.
          Keeps-bind _ _ (Keeps-attempt _ (capture_pane_pid-Keeps session)) λ pid.
            Keeps-bind _ _ (load-Keeps closed l session)
              λ o. confirm_from-Keeps _ work_dir command lifecycle o
