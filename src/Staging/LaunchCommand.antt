-- ===== src/Staging/LaunchCommand.antt =====
-- runtime/ops.go: the tmux command that starts the agent (buildLaunchCommandForPane,
-- buildLaunchCommandForTmuxWithPaneCommand, parseExtraSecretKeys).
pub mod Secrecy
use gc_runtime_nomad.Base.{
  ℕ, Bool, true, false, List, [], ◌∷◌, ◌++◌, String, Dict, value_of, keys, str_eq, trim_space,
  split, sort, concat, if◌then◌else◌,
}
use Prim.Native.String
use gc_runtime_nomad.Staging.Env.{env_argv_safe, strip_local_city_store_env}
use gc_runtime_nomad.Staging.Capture.{pane_cwd_prelude, agent_capture_body}

-- The parts of the list that are not blank.
unfoldable pub named_parts : List String → List String
named_parts [] = []
named_parts (part ∷ parts) =
    let rest = named_parts parts in
    if str_eq (trim_space part) "" then rest else trim_space part ∷ rest

unfoldable pub parse_extra_secret_keys : String → List String
unfolding named_parts
parse_extra_secret_keys raw = named_parts (split b',' raw)

abbrev pub launch_env_script : String
launch_env_script =
    "set -eu\nif [ -f \"$NOMAD_SECRETS_DIR/env.sh\" ]; then\n\t. \"$NOMAD_SECRETS_DIR/env.sh\"\nfi\nexec \"$@\""

abbrev pub pane_staged_env_prelude : String
pane_staged_env_prelude =
    "if [ -f \"$NOMAD_SECRETS_DIR/env.sh\" ]; then . \"$NOMAD_SECRETS_DIR/env.sh\"; fi; if [ -f \"$NOMAD_TASK_DIR/gcbin/gc\" ]; then chmod +x \"$NOMAD_TASK_DIR/gcbin/gc\" 2>/dev/null || true; PATH=\"$NOMAD_TASK_DIR/gcbin:$PATH\"; export PATH; fi; unset GC_CITY GC_CITY_PATH GC_RIG; "

unfoldable pub safe_keys : List String → List String
safe_keys [] = []
safe_keys (key ∷ names) =
    let rest = safe_keys names in if env_argv_safe key then key ∷ rest else rest

unfoldable pub env_args : Dict String → List String → List String
env_args env [] = []
env_args env (key ∷ names) = "-e" ∷ concat (key ∷ "=" ∷ value_of key env ∷ []) ∷ env_args env names

unfoldable pub argv_env : Dict String → List String
unfolding safe_keys env_args
argv_env env = env_args env (sort (safe_keys (keys env)))

unfoldable pub build_launch_command_for_tmux :
    (String → String) → Dict String → List String → String → String → List String
build_launch_command_for_tmux getenv wire_env tmux_args work_dir pane_command =
    let env = strip_local_city_store_env wire_env in
    ("/bin/sh" ∷ "-c" ∷ launch_env_script ∷ "gc-runtime-nomad-launch" ∷ "tmux" ∷ [])
    ++ (tmux_args
        ++ (argv_env env
            ++ ("/bin/sh"
                ∷ "-c"
                ∷ concat (
                    pane_staged_env_prelude
                    ∷ pane_cwd_prelude getenv work_dir
                    ∷ agent_capture_body pane_command
                    ∷ [])
                ∷ ";"
                ∷ "pipe-pane"
                ∷ "-o"
                ∷ "-t"
                ∷ "main"
                ∷ "cat >> \"${NOMAD_ALLOC_DIR:-/tmp}/data/agent.stdout\""
                ∷ [])))

unfoldable pub build_launch_command_for_pane :
    (String → String) → Dict String → String → String → List String
build_launch_command_for_pane getenv env work_dir pane_command =
    build_launch_command_for_tmux getenv env ("new-session" ∷ "-d" ∷ "-s" ∷ "main" ∷ []) work_dir
      pane_command
