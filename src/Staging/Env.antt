-- ===== src/Staging/Env.antt =====
-- The environment maps that staging and launching derive from a session's wire environment:
-- runtime/staging.go (envArgvSafe, mergeExtraSecretEnv, stripLocalCityStoreEnv,
-- remoteContextEnvScriptInput), runtime/image_env.go (boxFilesystemEnvInput) and
-- runtime/codex_home.go (codexHomeOwned). A map lists each key once.

pub mod Laws
use gc_runtime_nomad.Base.{
  Bool, true, false, not, ◌&&◌, ◌||◌, Option, none, some, List, [], ◌∷◌, ◌++◌, String, Dict, lookup,
  insert, value_of, keep_keys, keep_pairs, str_eq, starts_with, any_eq, trim_space, trim_suffix,
  if◌then◌else◌,
}
use Prim.Native.String

-- envArgvSafeNames
abbrev pub env_argv_safe_names : List String
env_argv_safe_names =
    "LANG" ∷ "LC_ALL" ∷ "LC_CTYPE" ∷ "TERM" ∷ "TZ" ∷ "PATH" ∷ "GC_CITY" ∷ "GC_RIG" ∷ "GC_AGENT"
    ∷ "GC_SESSION" ∷ "GC_SESSION_EPOCH" ∷ "GC_WORKDIR" ∷ "GC_HOME_DIR" ∷ []

unfoldable pub env_argv_safe : String → Bool
unfolding any_eq
env_argv_safe key = any_eq key env_argv_safe_names

-- What mergeExtraSecretEnv makes: the map, the keys that it added, and the keys that the process
-- does not have. The process's environment is an argument.
pub record Merged : Type 0 where
  pub env : Dict String
  pub extra : List String
  pub absent : List String

-- One key, in front of the rest of the loop.
unfoldable pub merge_key : String → Option String → Option String → Merged → Merged
merge_key key (some old) here m = m
merge_key key none none m = record m { absent = m.absent ++ key ∷ [] }
merge_key key none (some value) m = record m {
  env = insert key value m.env;
  extra = m.extra ++ key ∷ [];
}

unfoldable pub merge_keys : (String → Option String) → List String → Merged → Merged
unfolding merge_key lookup
merge_keys process [] m = m
merge_keys process (key ∷ names) m =
    merge_keys process names (merge_key key (lookup key m.env) (process key) m)

unfoldable pub merge_extra_secret_env :
    (String → Option String) → Dict String → List String → Merged
merge_extra_secret_env process env names =
    merge_keys process names (record { env = env; extra = []; absent = [] })

-- The local target and store family.
unfoldable pub is_local_city_store : String → Bool
is_local_city_store key =
    str_eq key "GC_CITY"
    || str_eq key "GC_CITY_PATH"
    || str_eq key "GC_CITY_ROOT"
    || str_eq key "GC_CITY_RUNTIME_DIR"
    || starts_with key "GC_BEADS"

unfoldable pub is_blank_at : String → Dict String → Bool
is_blank_at key env = str_eq (trim_space (value_of key env)) ""

unfoldable pub strip_local_city_store_env : Dict String → Dict String
unfolding is_blank_at is_local_city_store
strip_local_city_store_env env =
    if is_blank_at "GC_CITY_URL" env && is_blank_at "GC_CITY_CONTEXT" env
    then env
    else keep_keys (λ key. not (is_local_city_store key)) env

unfoldable pub remote_context_env_script_input : Dict String → Dict String
unfolding is_blank_at
remote_context_env_script_input env =
    if is_blank_at "GC_CITY_NAME" env || is_blank_at "GC_CITY_URL" env
    then env
    else keep_keys (λ key. not (str_eq key "GC_CITY_URL")) env

-- boxFilesystemEnvNames
abbrev pub box_filesystem_env_names : List String
box_filesystem_env_names =
    "PATH" ∷ "HOME" ∷ "TMP" ∷ "TEMP" ∷ "TMPDIR" ∷ "TMUX_TMPDIR" ∷ "GC_HOME" ∷ []

unfoldable pub is_box_filesystem : String → Bool
is_box_filesystem key = any_eq key box_filesystem_env_names || starts_with key "XDG_"

-- A root that is the empty text or "/" is none.
unfoldable pub root_of : String → List String
root_of value =
    let root = trim_suffix (trim_space value) "/" in
    if starts_with root "/" && not (str_eq root "/") then root ∷ [] else []

unfoldable pub orchestrator_path_roots : Dict String → List String
unfolding root_of
orchestrator_path_roots env = root_of (value_of "HOME" env) ++ root_of (value_of "TMPDIR" env)

-- The candidate is a root, or lives under one.
unfoldable pub is_under : String → List String → Bool
is_under candidate [] = false
is_under candidate (root ∷ roots) =
    str_eq candidate root
    || starts_with candidate (String.◌++◌ root "/")
    || is_under candidate roots

unfoldable pub names_orchestrator_path : String → List String → Bool
unfolding is_under
names_orchestrator_path value roots = is_under (trim_suffix (trim_space value) "/") roots

unfoldable pub box_filesystem_env_input : Dict String → Dict String
unfolding is_box_filesystem
box_filesystem_env_input env =
    let roots = orchestrator_path_roots env in
    keep_pairs
      (λ key value. not (is_box_filesystem key) && not (names_orchestrator_path value roots)) env

unfoldable pub codex_home_owned : String → Dict String → Bool
codex_home_owned secrets_dir env =
    let staged = trim_space (value_of "CODEX_HOME" env) in
    if str_eq (trim_space secrets_dir) ""
    then false
    else if str_eq staged ""
    then true
    else not (str_eq staged secrets_dir) && not (starts_with staged (String.◌++◌ secrets_dir "/"))

-- The copy is made only if the key is there; without it the copy is the map.
unfoldable pub codex_home_env_script_input : Dict String → Dict String
codex_home_env_script_input env = keep_keys (λ key. not (str_eq key "CODEX_HOME")) env
