-- ===== src/Staging/Secrets.antt =====
-- runtime/ops.go: the secret files of a session's box, in front of their archive (stage,
-- stagesAnything, validatedSecretsDir). Go visits a map in any order; here it is the map's own.
use gc_runtime_nomad.Base.{
  Bool, true, false, not, ◌&&◌, ◌||◌, Option, none, some, List, [], ◌∷◌, ◌++◌, String, Dict, str_eq,
  any_eq, trim_space, contains_any, concat, if◌then◌else◌,
}
use gc_runtime_nomad.Lifecycle.Error.{message, Result, ok, err}
use gc_runtime_nomad.Lifecycle.Types.{StageConfig}
use gc_runtime_nomad.Staging.Env.{
  env_argv_safe, merge_extra_secret_env, strip_local_city_store_env,
  remote_context_env_script_input, box_filesystem_env_input, codex_home_owned,
  codex_home_env_script_input,
}
use gc_runtime_nomad.Staging.Options.{merge_launch_option_env}
use gc_runtime_nomad.Staging.Script.{
  StageFile, private_mode, build_env_script, build_remote_context_file,
  build_remote_context_env_lines,
}
use gc_runtime_nomad.Staging.Codex.{build_codex_home_files, codex_home_env_lines}

-- The environment that is staged, of a session's and the process's.
unfoldable pub secret_env : (String → Option String) → List String → StageConfig → Dict String
secret_env process names cfg =
    merge_launch_option_env
      (strip_local_city_store_env (merge_extra_secret_env process cfg.env names).env) cfg.command

unfoldable pub key_files : List String → Dict String → List StageFile
key_files extra [] = []
key_files extra ((key, value) ∷ env) =
    let rest = key_files extra env in
    if not (any_eq key extra) && env_argv_safe key
    then rest
    else (record { path = key; content = value; mode = private_mode }) ∷ rest

-- What env.sh is made of.
unfoldable pub script_input : String → Bool → Dict String → Dict String
script_input secrets_dir codex env =
    let remote = remote_context_env_script_input env in
    let boxed = if str_eq secrets_dir "" then remote else box_filesystem_env_input remote in
    if codex then codex_home_env_script_input boxed else boxed

unfoldable pub env_script : String → Bool → Dict String → String
unfolding script_input
env_script secrets_dir codex env = concat (
    build_env_script (script_input secrets_dir codex env)
    ∷ build_remote_context_env_lines env
    ∷ (if codex then codex_home_env_lines else "")
    ∷ [])

unfoldable pub context_files : Option StageFile → List StageFile
context_files none = []
context_files (some f) = f ∷ []

unfoldable pub codex_files : Bool → Dict String → Result (List StageFile)
codex_files codex env = if codex then build_codex_home_files env else ok []

unfoldable pub is_empty_map : Dict String → Bool
is_empty_map [] = true
is_empty_map (_ ∷ _) = false

unfoldable pub secret_files : String → List String → Dict String → Result (List StageFile)
unfolding is_empty_map key_files env_script context_files codex_files
secret_files secrets_dir extra env =
    let codex = codex_home_owned secrets_dir env in
    if str_eq secrets_dir "" && is_empty_map env
    then ok (key_files extra env)
    else elim (codex_files codex env) [
      | err e ↦ err e
      | ok home ↦ ok (
          key_files extra env
          ++ ((record {
            path = "env.sh";
            content = env_script secrets_dir codex env;
            mode = private_mode;
          })
              ∷ (context_files (build_remote_context_file env secrets_dir) ++ home)))
    ]

unfoldable pub validated_secrets_dir : String → Result String
validated_secrets_dir reported =
    let dir = trim_space reported in
    if str_eq dir "" || contains_any dir "\n\r"
    then err (message "the session reports no usable Nomad secrets mount")
    else ok dir
