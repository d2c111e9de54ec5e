-- ===== src/Lifecycle/Stage.antt =====
-- runtime/ops.go: staging a session's files and secrets into its box (stage, stagesAnything,
-- boxSecretsDir, execStage, stageTracked, savePromptPending, setStagePending) and
-- runtime/drain_ack.go (saveLifecyclePending). An error's text keeps what the box printed, since a
-- retry reads it.
pub mod Laws
use gc_runtime_nomad.Base.{
  ℕ, Bool, true, false, not, ◌&&◌, ◌||◌, Option, none, some, List, [], ◌∷◌, ◌++◌, String, Dict,
  ◌==◌, str_eq, any_eq, itoa, trim_space, concat, if◌then◌else◌,
}
use gc_runtime_nomad.Lifecycle.Error.{Err, message, wrap, Result, ok, err}
use gc_runtime_nomad.Lifecycle.Types.{Binding, StageConfig, CopyEntry}
use gc_runtime_nomad.Lifecycle.World.{
  Lifecycle, World, Stdin, archive, body, M, pure, raise, attempt, annotate, lift, call, observe,
  ◌>>=◌, ◌>>◌,
}
use gc_runtime_nomad.Lifecycle.Excerpt.{exec_excerpt}
use gc_runtime_nomad.Lifecycle.Sidecar.{load, save}
use gc_runtime_nomad.Lifecycle.Alloc.{
  exec_task_name, retry_alloc_exec_ready, await_exec_alloc_ready,
}
use gc_runtime_nomad.Lifecycle.Diagnosis.{provision_failure_detail}
use gc_runtime_nomad.Staging.Env.{merge_extra_secret_env}
use gc_runtime_nomad.Staging.Script.{StageFile}
use gc_runtime_nomad.Staging.StagePath.{build_tar}
use gc_runtime_nomad.Staging.Capture.{absolute_path_args}
use gc_runtime_nomad.Staging.Sources.{
  HostFile, source_files, check_destinations, arg_file_stage_allowed, arg_file,
}
use gc_runtime_nomad.Staging.Secrets.{secret_env, is_empty_map, secret_files, validated_secrets_dir}

-- stageConfig.startupPrompt and promptSubset
unfoldable pub startup_prompt : StageConfig → String
startup_prompt cfg = if str_eq (trim_space cfg.nudge) "" then "" else cfg.nudge

unfoldable pub prompt_subset : StageConfig → StageConfig
prompt_subset cfg = record cfg {
  work_dir = "";
  env = [];
  lifecycle = "";
  pre_start = [];
  session_setup = [];
  session_setup_script = "";
  session_live = [];
  pack_overlay_dirs = [];
  overlay_dir = "";
  copy_files = [];
}

abbrev pub stage_workspace_command : String → List String
stage_workspace_command work_dir =
    "/bin/sh" ∷ "-c" ∷ "mkdir -p \"$1\" && tar -x -f - -C \"$1\"" ∷ "stage-workspace" ∷ work_dir
    ∷ []

abbrev pub stage_secrets_command : List String
stage_secrets_command =
    "/bin/sh" ∷ "-c" ∷ "mkdir -p \"$NOMAD_SECRETS_DIR\" && tar -x -f - -C \"$NOMAD_SECRETS_DIR\""
    ∷ "stage-secrets" ∷ []

-- argFileStageCommand
abbrev pub arg_file_stage_command : String → List String
arg_file_stage_command path =
    "/bin/sh" ∷ "-c" ∷ "mkdir -p \"$(dirname \"$1\")\" && cat > \"$1\" && chmod 600 \"$1\""
    ∷ "stage-arg-file" ∷ path ∷ []

abbrev pub secrets_dir_command : List String
secrets_dir_command =
    "/bin/sh" ∷ "-c" ∷ "printf %s \"$NOMAD_SECRETS_DIR\"" ∷ "gc-runtime-nomad-secrets-dir" ∷ []

unfoldable pub has_copies : List CopyEntry → Bool
has_copies [] = false
has_copies (_ ∷ _) = true

unfoldable pub has_files : List StageFile → Bool
has_files [] = false
has_files (_ ∷ _) = true

abbrev pub same_bool : Bool → Bool → Bool
same_bool true b = b
same_bool false b = not b

module _ {N : Type 0} (l : Lifecycle N) where
  -- One run of a staging command.
  unfoldable pub stage_once : String → List String → Stdin → M N (Unit {0})
  stage_once alloc command stdin = do
    (exit_code, out) ← call (l.client.exec_alloc_stdin alloc exec_task_name command stdin)
    if exit_code == 0
        then pure tt
        else raise (message (concat ("tar exited " ∷ itoa exit_code ∷ ": " ∷ out ∷ [])))

  unfoldable pub exec_stage : String → List String → Stdin → M N (Unit {0})
  exec_stage session command stdin = do
    alloc ← await_exec_alloc_ready l session
    retry_alloc_exec_ready l (stage_once alloc command stdin)

  -- The error of a leg of the staging, with what the cluster says of the task.
  unfoldable pub explain : String → String → Result (Unit {0}) → M N (Unit {0})
  explain session what (ok done) = pure done
  explain session what (err e) = do
    detail ← provision_failure_detail l session
    raise (wrap what (if str_eq detail "" then e else wrap detail e))

  unfoldable pub copy_files_to_stage_files : List CopyEntry → M N (List StageFile)
  copy_files_to_stage_files [] = pure []
  copy_files_to_stage_files (entry ∷ entries) =
      if str_eq (trim_space entry.src) "" then raise (message "copy_files entry has no src") else do
        source ← annotate "copy_files src" (call (l.source_at entry.src))
        files ← lift (source_files entry source)
        rest ← copy_files_to_stage_files entries
        pure (files ++ rest)

  unfoldable pub copy_checked : List CopyEntry → M N (List StageFile)
  copy_checked entries = do
    files ← copy_files_to_stage_files entries
    lift (check_destinations files)
    pure files

  unfoldable pub stage_archive : String → String → List String → List StageFile → M N (Unit {0})
  stage_archive session what command [] = pure tt
  stage_archive session what command (f ∷ files) = do
    entries ← annotate what (lift (build_tar (f ∷ files)))
    r ← attempt (exec_stage session command (archive entries))
    explain session what r

  unfoldable pub work_dir_or_here : String → String
  work_dir_or_here work_dir = if str_eq work_dir "" then "." else work_dir

  -- The files that the agent's own arguments name, one at a time.
  unfoldable pub arg_files_to_stage : List String → M N (List StageFile)
  arg_files_to_stage [] = pure []
  arg_files_to_stage (path ∷ paths) = do
    resolved ← observe (l.real_path path)
    if not (arg_file_stage_allowed l.user_home resolved) then arg_files_to_stage paths else do
      found ← observe (l.file_at path)
      rest ← arg_files_to_stage paths
      pure (arg_file path found ++ rest)

  -- A failure is logged.
  unfoldable pub stage_arg_files : String → List StageFile → M N (Unit {0})
  stage_arg_files session [] = pure tt
  stage_arg_files session (f ∷ files) = do
    attempt (exec_stage session (arg_file_stage_command f.path) (body f.content))
    stage_arg_files session files

  unfoldable pub secrets_dir_once : String → M N String
  secrets_dir_once alloc = do
    (exit_code, out) ← call (l.client.exec_alloc alloc exec_task_name secrets_dir_command)
    if exit_code == 0
        then pure (trim_space out)
        else raise (
            message (
              concat ("secrets-dir probe exited " ∷ itoa exit_code ∷ ": " ∷ exec_excerpt out ∷ [])))

  -- The probe's answer is the last run's.
  unfoldable pub box_secrets_dir : String → M N String
  box_secrets_dir session = do
    alloc ← await_exec_alloc_ready l session
    reported ← retry_alloc_exec_ready l (secrets_dir_once alloc)
    lift (validated_secrets_dir reported)

  unfoldable pub resolved_secrets_dir : String → M N String
  resolved_secrets_dir session =
      if str_eq l.agent_image ""
      then pure ""
      else annotate "staging secrets" (box_secrets_dir session)

  unfoldable pub stage : String → StageConfig → M N (Unit {0})
  stage session cfg = do
    workspace ← annotate "staging workspace" (copy_checked cfg.copy_files)
    stage_archive session "staging workspace"
        (stage_workspace_command (work_dir_or_here cfg.work_dir)) workspace
    named ← arg_files_to_stage (absolute_path_args cfg.command)
    stage_arg_files session named
    let merged = merge_extra_secret_env l.lookup_env cfg.env l.extra_secret_keys
    dir ← resolved_secrets_dir session
    files ←
        annotate "staging secrets"
          (lift (secret_files dir merged.extra (secret_env l.lookup_env l.extra_secret_keys cfg)))
    stage_archive session "staging secrets" stage_secrets_command files

  -- Whether there is a payload, for a session without an image.
  unfoldable pub stages_anything : StageConfig → M N Bool
  stages_anything cfg = if has_copies cfg.copy_files then pure true else do
    named ← arg_files_to_stage (absolute_path_args cfg.command)
    pure (has_files named || not (is_empty_map (secret_env l.lookup_env l.extra_secret_keys cfg)))

  -- A write of one field of the session's binding, if there is a binding.
  unfoldable pub rewrite : String → (Binding → Option Binding) → Option Binding → M N (Unit {0})
  rewrite what change none = raise (message what)
  rewrite what change (some b) = elim (change b) [ none ↦ pure tt | some b' ↦ save l b' ]

  unfoldable pub save_prompt_pending : String → StageConfig → M N (Unit {0})
  save_prompt_pending session cfg =
      if str_eq (startup_prompt cfg) ""
      then pure tt
      else load l session
        >>= rewrite "binding vanished before its startup prompt could be recorded"
            (λ b. some (record b { prompt_pending = some (prompt_subset cfg) }))

  unfoldable pub save_lifecycle_pending : String → StageConfig → M N (Unit {0})
  save_lifecycle_pending session cfg =
      let value = trim_space cfg.lifecycle in
      if str_eq value ""
      then pure tt
      else load l session
        >>= rewrite "binding vanished before its lifecycle could be recorded"
            (λ b. if str_eq b.lifecycle value then none else some (record b { lifecycle = value }))

  unfoldable pub set_stage_pending : String → Bool → M N (Unit {0})
  set_stage_pending session pending =
      load l session
      >>= rewrite "binding vanished before staging could be recorded" (λ b.
        if same_bool b.stage_pending pending
        then none
        else some (record b { stage_pending = pending }))

  unfoldable pub stage_marked : String → StageConfig → M N (Unit {0})
  stage_marked session cfg = do
    set_stage_pending session true
    stage session cfg
    set_stage_pending session false

  unfoldable pub stage_tracked : String → StageConfig → M N (Unit {0})
  stage_tracked session cfg = do
    save_prompt_pending session cfg
    save_lifecycle_pending session cfg
    anything ← stages_anything cfg
    if not anything && str_eq l.agent_image "" then stage session cfg else stage_marked session cfg
