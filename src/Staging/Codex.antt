-- ===== src/Staging/Codex.antt =====
-- runtime/codex_home.go: the Codex home that the pack stages into an image's box
-- (renderCodexConfig and its checks, buildCodexHomeFiles, buildCodexHomeEnvLines).
use gc_runtime_nomad.Base.{
  ℕ, Bool, true, not, ◌&&◌, ◌||◌, Option, none, some, List, [], ◌∷◌, String, Dict, lookup, value_of,
  ◌==◌, leb, str_eq, starts_with, trim_space, contains_any, concat, if◌then◌else◌,
}
use Prim.Native.Char.{code}
use gc_runtime_nomad.Lifecycle.Error.{message, Result, ok, err}
use gc_runtime_nomad.Staging.Script.{StageFile, private_mode, toml_quote}

unfoldable pub is_provider_code : ℕ → Bool
is_provider_code c =
    (leb b'a' c && leb c b'z')
    || (leb b'A' c && leb c b'Z')
    || (leb b'0' c && leb c b'9')
    || c == b'_'
    || c == b'.'
    || c == b'-'

unfoldable pub all_provider_codes : String → Bool
unfolding is_provider_code
all_provider_codes String.[] = true
all_provider_codes (String.◌∷◌ c s) = is_provider_code (code c) && all_provider_codes s

unfoldable pub valid_codex_provider_name : String → Bool
unfolding all_provider_codes
valid_codex_provider_name name = not (str_eq name "") && all_provider_codes name

unfoldable pub valid_codex_base_url : String → Bool
valid_codex_base_url u =
    (starts_with u "http://" || starts_with u "https://") && not (contains_any u " \t\n\r\"'\\")

unfoldable pub only_digits : String → Bool
only_digits String.[] = true
only_digits (String.◌∷◌ c s) = leb b'0' (code c) && leb (code c) b'9' && only_digits s

unfoldable pub all_digits : String → Bool
unfolding only_digits
all_digits s = not (str_eq s "") && only_digits s

-- writeCodexProjectTrust
abbrev pub codex_project_trust : String
codex_project_trust = "\n[projects.\"/alloc/work\"]\ntrust_level = \"trusted\"\n"

-- A line of a setting, unless its value is empty.
unfoldable pub toml_line : String → String → String
toml_line key value =
    if str_eq value "" then "" else concat (key ∷ " = " ∷ toml_quote value ∷ "\n" ∷ [])

unfoldable pub compact_line : String → String
unfolding all_digits
compact_line compact =
    if all_digits compact
    then concat ("model_auto_compact_token_limit = " ∷ compact ∷ "\n" ∷ [])
    else ""

unfoldable pub codex_config : Dict String → String → String → String → String
unfolding toml_line compact_line
codex_config env provider base_url wire_api = concat (
    toml_line "model" (trim_space (value_of "GC_MODEL" env))
    ∷ "model_provider = "
    ∷ toml_quote provider
    ∷ "\n"
    ∷ toml_line "model_reasoning_effort" (trim_space (value_of "GC_REASONING_EFFORT" env))
    ∷ compact_line (trim_space (value_of "GC_CONTEXT_WINDOW_TOKENS" env))
    ∷ "approval_policy = \"never\"\nsandbox_mode = \"danger-full-access\"\n\n[model_providers."
    ∷ provider
    ∷ "]\nname = "
    ∷ toml_quote provider
    ∷ "\nbase_url = "
    ∷ toml_quote base_url
    ∷ "\nwire_api = "
    ∷ toml_quote wire_api
    ∷ "\nrequires_openai_auth = false\nrequest_max_retries = 0\nstream_max_retries = 0\n"
    ∷ "stream_idle_timeout_ms = 1800000\n"
    ∷ codex_project_trust
    ∷ [])

unfoldable pub render_codex_config : Dict String → Result String
unfolding codex_config valid_codex_base_url valid_codex_provider_name
render_codex_config env =
    let provider = trim_space (value_of "GC_CODEX_MODEL_PROVIDER" env) in
    let base_url = trim_space (value_of "GC_CODEX_MODEL_PROVIDER_BASE_URL" env) in
    let given = trim_space (value_of "GC_CODEX_WIRE_API" env) in
    let wire_api = if str_eq given "" then "responses" else given in
    if str_eq provider "" && str_eq base_url ""
    then ok codex_project_trust
    else if not (valid_codex_provider_name provider)
    then err (message "codex provider config: not a plain provider name")
    else if not (valid_codex_base_url base_url)
    then err (message "codex provider config: not a single http(s):// URL")
    else if not (valid_codex_provider_name wire_api)
    then err (message "codex provider config: not a plain wire API name")
    else ok (codex_config env provider base_url wire_api)

unfoldable pub config_files : String → List StageFile → List StageFile
config_files config files =
    if str_eq config ""
    then files
    else (record { path = "codex-home/config.toml"; content = config; mode = private_mode }) ∷ files

unfoldable pub auth_files : Option String → List StageFile
auth_files none = []
auth_files (some auth) =
    if str_eq (trim_space auth) ""
    then []
    else (record { path = "codex-home/auth.json"; content = auth; mode = private_mode }) ∷ []

unfoldable pub build_codex_home_files : Dict String → Result (List StageFile)
unfolding config_files auth_files lookup
build_codex_home_files env = elim (render_codex_config env) [
  | err e ↦ err e
  | ok config ↦ ok (config_files config (auth_files (lookup "CODEX_AUTH_JSON" env)))
]

-- buildCodexHomeEnvLines
abbrev pub codex_home_env_lines : String
codex_home_env_lines = "export CODEX_HOME=\"$NOMAD_SECRETS_DIR/codex-home\"\n"
