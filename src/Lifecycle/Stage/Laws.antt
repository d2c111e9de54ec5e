-- ===== src/Lifecycle/Stage/Laws.antt =====
-- Staging keeps what survives saves (runtime/ops.go, stageTracked and what it calls).
use gc_runtime_nomad.Base.{
  Bool, true, false, not, ◌&&◌, Option, none, some, List, [], ◌∷◌, String, ◌==◌, str_eq, trim_space,
}
use gc_runtime_nomad.Lifecycle.Error.{Result, ok, err}
use gc_runtime_nomad.Lifecycle.Types.{Binding, StageConfig, CopyEntry}
use gc_runtime_nomad.Lifecycle.World.{Lifecycle, World, Stdin, M, pure}
use gc_runtime_nomad.Lifecycle.World.Keeping.{
  Keeps, Closed, Keeps-bind, Keeps-call, Keeps-attempt, Keeps-observe, Keeps-lift, Keeps-if,
  Keeps-pure, Keeps-raise, Keeps-annotate,
}
use gc_runtime_nomad.Lifecycle.Sidecar.{save}
use gc_runtime_nomad.Lifecycle.Sidecar.Laws.{load-Keeps, save-Keeps}
use gc_runtime_nomad.Lifecycle.Alloc.Laws.{
  await_exec_alloc_ready-Keeps, retry_alloc_exec_ready-Keeps,
}
use gc_runtime_nomad.Lifecycle.Diagnosis.{detail_of, provision_failure_detail}
use gc_runtime_nomad.Staging.Script.{StageFile}
use gc_runtime_nomad.Staging.Capture.{absolute_path_args}
use gc_runtime_nomad.Staging.Sources.{arg_file_stage_allowed}
use gc_runtime_nomad.Lifecycle.Stage.{
  startup_prompt, has_copies, stage_once, exec_stage, explain, copy_files_to_stage_files,
  copy_checked, stage_archive, arg_files_to_stage, stage_arg_files, secrets_dir_once,
  box_secrets_dir, resolved_secrets_dir, stage, stages_anything, rewrite, save_prompt_pending,
  save_lifecycle_pending, set_stage_pending, stage_marked, stage_tracked,
}

module _ {N : Type 0} {P : World N → Type 0} (closed : Closed P) (l : Lifecycle N) where
  detail_of-Keeps : (r : Result (Option Binding)) → Keeps P (detail_of l r)
  unfolding detail_of
  detail_of-Keeps (err e) = Keeps-pure _
  detail_of-Keeps (ok none) = Keeps-pure _
  detail_of-Keeps (ok (some b)) =
      Keeps-if (str_eq (trim_space b.child_job_id) "") _ _ (λ _. Keeps-pure _)
        λ _. Keeps-bind _ _ (Keeps-attempt _ (Keeps-call _ closed)) λ _. Keeps-pure _

  detail-Keeps : (session : String) → Keeps P (provision_failure_detail l session)
  unfolding provision_failure_detail
  detail-Keeps session =
      Keeps-bind _ _ (Keeps-attempt _ (load-Keeps closed l session)) λ r. detail_of-Keeps r

  stage_once-Keeps :
      (alloc : String) (command : List String) (stdin : Stdin)
      → Keeps P (stage_once l alloc command stdin)
  unfolding stage_once
  stage_once-Keeps alloc command stdin =
      Keeps-bind _ _ (Keeps-call _ closed)
        λ answer. Keeps-if (answer.0 == 0) _ _ (λ _. Keeps-pure tt) (λ _. Keeps-raise _)

  pub exec_stage-Keeps :
      (session : String) (command : List String) (stdin : Stdin)
      → Keeps P (exec_stage l session command stdin)
  unfolding exec_stage
  exec_stage-Keeps session command stdin =
      Keeps-bind _ _ (await_exec_alloc_ready-Keeps closed l session)
        λ alloc. retry_alloc_exec_ready-Keeps closed l _ (stage_once-Keeps alloc command stdin)

  explain-Keeps :
      (session what : String) (r : Result (Unit {0})) → Keeps P (explain l session what r)
  unfolding explain
  explain-Keeps session what (ok done) = Keeps-pure done
  explain-Keeps session what (err e) = Keeps-bind _ _ (detail-Keeps session) λ detail. Keeps-raise _

  copy_files_to_stage_files-Keeps :
      (entries : List CopyEntry) → Keeps P (copy_files_to_stage_files l entries)
  unfolding copy_files_to_stage_files
  copy_files_to_stage_files-Keeps [] = Keeps-pure _
  copy_files_to_stage_files-Keeps (entry ∷ entries) =
      Keeps-if (str_eq (trim_space entry.src) "") _ _ (λ _. Keeps-raise _)
        λ _. Keeps-bind _ _ (Keeps-annotate _ _ (Keeps-call _ closed)) λ source.
          Keeps-bind _ _ (Keeps-lift _)
            λ files. Keeps-bind _ _ (copy_files_to_stage_files-Keeps entries) λ rest. Keeps-pure _

  copy_checked-Keeps : (entries : List CopyEntry) → Keeps P (copy_checked l entries)
  unfolding copy_checked
  copy_checked-Keeps entries =
      Keeps-bind _ _ (copy_files_to_stage_files-Keeps entries)
        λ files. Keeps-bind _ _ (Keeps-lift _) λ _. Keeps-pure _

  stage_archive-Keeps :
      (session what : String) (command : List String) (files : List StageFile)
      → Keeps P (stage_archive l session what command files)
  unfolding stage_archive
  stage_archive-Keeps session what command [] = Keeps-pure tt
  stage_archive-Keeps session what command (f ∷ files) =
      Keeps-bind _ _ (Keeps-annotate _ _ (Keeps-lift _)) λ entries.
        Keeps-bind _ _ (Keeps-attempt _ (exec_stage-Keeps session command _))
          λ r. explain-Keeps session what r

  arg_files_to_stage-Keeps : (paths : List String) → Keeps P (arg_files_to_stage l paths)
  unfolding arg_files_to_stage
  arg_files_to_stage-Keeps [] = Keeps-pure _
  arg_files_to_stage-Keeps (path ∷ paths) = Keeps-bind _ _ (Keeps-observe _ closed) λ resolved.
      Keeps-if (not (arg_file_stage_allowed l.user_home resolved)) _ _
        (λ _. arg_files_to_stage-Keeps paths)
        λ _.
          Keeps-bind _ _ (Keeps-observe _ closed)
            λ found. Keeps-bind _ _ (arg_files_to_stage-Keeps paths) λ rest. Keeps-pure _

  stage_arg_files-Keeps :
      (session : String) (files : List StageFile) → Keeps P (stage_arg_files l session files)
  unfolding stage_arg_files
  stage_arg_files-Keeps session [] = Keeps-pure tt
  stage_arg_files-Keeps session (f ∷ files) =
      Keeps-bind _ _ (Keeps-attempt _ (exec_stage-Keeps session _ _))
        λ _. stage_arg_files-Keeps session files

  secrets_dir_once-Keeps : (alloc : String) → Keeps P (secrets_dir_once l alloc)
  unfolding secrets_dir_once
  secrets_dir_once-Keeps alloc =
      Keeps-bind _ _ (Keeps-call _ closed)
        λ answer. Keeps-if (answer.0 == 0) _ _ (λ _. Keeps-pure _) (λ _. Keeps-raise _)

  box_secrets_dir-Keeps : (session : String) → Keeps P (box_secrets_dir l session)
  unfolding box_secrets_dir
  box_secrets_dir-Keeps session =
      Keeps-bind _ _ (await_exec_alloc_ready-Keeps closed l session) λ alloc.
        Keeps-bind _ _ (retry_alloc_exec_ready-Keeps closed l _ (secrets_dir_once-Keeps alloc))
          λ reported. Keeps-lift _

  resolved_secrets_dir-Keeps : (session : String) → Keeps P (resolved_secrets_dir l session)
  unfolding resolved_secrets_dir
  resolved_secrets_dir-Keeps session =
      Keeps-if (str_eq l.agent_image "") _ _ (λ _. Keeps-pure _)
        λ _. Keeps-annotate _ _ (box_secrets_dir-Keeps session)

  stage-Keeps : (session : String) (cfg : StageConfig) → Keeps P (stage l session cfg)
  unfolding stage
  stage-Keeps session cfg =
      Keeps-bind _ _ (Keeps-annotate _ _ (copy_checked-Keeps cfg.copy_files)) λ workspace.
        Keeps-bind _ _ (stage_archive-Keeps session _ _ workspace) λ _.
          Keeps-bind _ _ (arg_files_to_stage-Keeps (absolute_path_args cfg.command)) λ named.
            Keeps-bind _ _ (stage_arg_files-Keeps session named) λ _.
              Keeps-bind _ _ (resolved_secrets_dir-Keeps session) λ dir.
                Keeps-bind _ _ (Keeps-annotate _ _ (Keeps-lift _))
                  λ files. stage_archive-Keeps session _ _ files

  stages_anything-Keeps : (cfg : StageConfig) → Keeps P (stages_anything l cfg)
  unfolding stages_anything
  stages_anything-Keeps cfg =
      Keeps-if (has_copies cfg.copy_files) _ _ (λ _. Keeps-pure _)
        λ _.
          Keeps-bind _ _ (arg_files_to_stage-Keeps (absolute_path_args cfg.command))
            λ named. Keeps-pure _

  rewrite-Keeps :
      (what : String) (change : Binding → Option Binding) (o : Option Binding)
      → Keeps P (rewrite l what change o)
  unfolding rewrite
  rewrite-Keeps what change none = Keeps-raise _
  rewrite-Keeps what change (some b) = changed (change b)
    where
      changed :
          (o : Option Binding)
          → Keeps P (elim o as (λ _. M N (Unit {0})) [ none ↦ pure tt | some b' ↦ save l b' ])
      changed none = Keeps-pure tt
      changed (some b') = save-Keeps closed l b'

  save_prompt_pending-Keeps :
      (session : String) (cfg : StageConfig) → Keeps P (save_prompt_pending l session cfg)
  unfolding save_prompt_pending
  save_prompt_pending-Keeps session cfg =
      Keeps-if (str_eq (startup_prompt cfg) "") _ _ (λ _. Keeps-pure tt)
        λ _. Keeps-bind _ _ (load-Keeps closed l session) λ o. rewrite-Keeps _ _ o

  save_lifecycle_pending-Keeps :
      (session : String) (cfg : StageConfig) → Keeps P (save_lifecycle_pending l session cfg)
  unfolding save_lifecycle_pending
  save_lifecycle_pending-Keeps session cfg =
      Keeps-if (str_eq (trim_space cfg.lifecycle) "") _ _ (λ _. Keeps-pure tt)
        λ _. Keeps-bind _ _ (load-Keeps closed l session) λ o. rewrite-Keeps _ _ o

  set_stage_pending-Keeps :
      (session : String) (pending : Bool) → Keeps P (set_stage_pending l session pending)
  unfolding set_stage_pending
  set_stage_pending-Keeps session pending =
      Keeps-bind _ _ (load-Keeps closed l session) λ o. rewrite-Keeps _ _ o

  stage_marked-Keeps : (session : String) (cfg : StageConfig) → Keeps P (stage_marked l session cfg)
  unfolding stage_marked
  stage_marked-Keeps session cfg =
      Keeps-bind _ _ (set_stage_pending-Keeps session true)
        λ _. Keeps-bind _ _ (stage-Keeps session cfg) λ _. set_stage_pending-Keeps session false

  pub stage_tracked-Keeps :
      (session : String) (cfg : StageConfig) → Keeps P (stage_tracked l session cfg)
  unfolding stage_tracked
  stage_tracked-Keeps session cfg = Keeps-bind _ _ (save_prompt_pending-Keeps session cfg) λ _.
      Keeps-bind _ _ (save_lifecycle_pending-Keeps session cfg) λ _.
        Keeps-bind _ _ (stages_anything-Keeps cfg) λ anything.
          Keeps-if (not anything && str_eq l.agent_image "") _ _ (λ _. stage-Keeps session cfg)
            (λ _. stage_marked-Keeps session cfg)
