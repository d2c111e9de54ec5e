-- ===== src/Staging/Script.antt =====
-- runtime/staging.go: the texts that staging writes for the box's shell and for gc's own context
-- file (validShellEnvName, shellQuote, pemPointerName, buildEnvScript, buildRemoteContextFile,
-- buildRemoteContextEnvLines, tomlQuote). A Go string here is a text; `env` lists each key once.
pub mod Pointers
use gc_runtime_nomad.Base.{
  ℕ, Bool, true, false, not, ◌&&◌, ◌||◌, Option, none, some, List, [], ◌∷◌, ◌++◌, String, Dict,
  lookup, value_of, keys, ◌==◌, leb, str_eq, trim_space, trim_suffix, replace_code, concat, sort,
  map, if◌then◌else◌,
}
use Prim.Native.Char.{code}
use Prim.Native.String

pub record StageFile : Type 0 where
  pub path : String
  pub content : String
  pub mode : ℕ

-- 0o600
abbrev pub private_mode : ℕ
private_mode = 384

unfoldable pub is_name_start : ℕ → Bool
is_name_start c = (leb b'A' c && leb c b'Z') || (leb b'a' c && leb c b'z') || c == b'_'

unfoldable pub is_name_code : ℕ → Bool
unfolding is_name_start
is_name_code c = is_name_start c || (leb b'0' c && leb c b'9')

unfoldable pub all_name_codes : String → Bool
unfolding is_name_code
all_name_codes String.[] = true
all_name_codes (String.◌∷◌ c s) = is_name_code (code c) && all_name_codes s

unfoldable pub valid_shell_env_name : String → Bool
unfolding is_name_start all_name_codes
valid_shell_env_name String.[] = false
valid_shell_env_name (String.◌∷◌ c s) = is_name_start (code c) && all_name_codes s

-- shellQuote, of a text
unfoldable pub quote_text : String → String
unfolding replace_code
quote_text value = String.◌++◌ "'" (String.◌++◌ (replace_code 39 "'\\''" value) "'")

unfoldable pub pem_pointer_name : String → Option String
unfolding trim_suffix
pem_pointer_name key =
    let base = trim_suffix key "_PEM" in
    if str_eq base key || str_eq base "" || not (valid_shell_env_name base) then none else some base

unfoldable pub value_line : String → String → Option String → String
value_line value key (some pointer) = ""
value_line value key none = concat ("export " ∷ key ∷ "=" ∷ quote_text value ∷ "\n" ∷ [])

unfoldable pub pointer_line : String → Option String → String
pointer_line key none = ""
pointer_line key (some pointer) =
    concat ("export " ∷ pointer ∷ "=\"$NOMAD_SECRETS_DIR/" ∷ key ∷ "\"\n" ∷ [])

unfoldable pub value_lines : Dict String → List String → String
unfolding value_line
value_lines env [] = ""
value_lines env (key ∷ names) =
    String.◌++◌ (value_line (value_of key env) key (pem_pointer_name key)) (value_lines env names)

unfoldable pub pointer_lines : List String → String
unfolding pointer_line
pointer_lines [] = ""
pointer_lines (key ∷ names) =
    String.◌++◌ (pointer_line key (pem_pointer_name key)) (pointer_lines names)

unfoldable pub valid_names : List String → List String
valid_names [] = []
valid_names (key ∷ names) =
    let rest = valid_names names in if valid_shell_env_name key then key ∷ rest else rest

unfoldable pub build_env_script : Dict String → String
unfolding value_lines pointer_lines valid_names
build_env_script env =
    let names = sort (valid_names (keys env)) in
    String.◌++◌ (value_lines env names) (pointer_lines names)

unfoldable pub toml_code : ℕ → String → String
toml_code c this =
    if c == 34 || c == 92
    then String.◌++◌ "\\" this
    else if c == 10
    then "\\n"
    else if c == 9
    then "\\t"
    else this

toml_body : String → String
unfolding toml_code
toml_body String.[] = ""
toml_body (String.◌∷◌ c s) = String.◌++◌ (toml_code (code c) (String.◌∷◌ c String.[])) (toml_body s)

unfoldable pub toml_quote : String → String
unfolding toml_body
toml_quote s = String.◌++◌ "\"" (String.◌++◌ (toml_body s) "\"")

-- remoteContextPEMKeys
abbrev pub remote_context_pem_keys : List (String × String)
remote_context_pem_keys =
    ("ca_file", "GC_CITY_CA_PEM")
    ∷ ("client_cert_file", "GC_CITY_CLIENT_CERT_PEM")
    ∷ ("client_key_file", "GC_CITY_CLIENT_KEY_PEM")
    ∷ []

unfoldable pub role_lines : Dict String → String → List (String × String) → String
unfolding lookup
role_lines env dir [] = ""
role_lines env dir ((field, key) ∷ roles) =
    String.◌++◌
      (elim (lookup key env) [
        | none ↦ ""
        | some value ↦
            concat (field ∷ " = " ∷ toml_quote (concat (dir ∷ "/" ∷ key ∷ [])) ∷ "\n" ∷ [])
      ])
      (role_lines env dir roles)

unfoldable pub build_remote_context_file : Dict String → String → Option StageFile
unfolding role_lines
build_remote_context_file env secrets_dir =
    let dir = if str_eq secrets_dir "" then "/secrets" else secrets_dir in
    let name = trim_space (value_of "GC_CITY_NAME" env) in
    let url = trim_space (value_of "GC_CITY_URL" env) in
    if str_eq name "" || str_eq url ""
    then none
    else some (record {
      path = "gc-home/contexts.toml";
      content = concat (
          "[[context]]\n"
          ∷ "name = "
          ∷ toml_quote name
          ∷ "\nurl = "
          ∷ toml_quote url
          ∷ "\n"
          ∷ role_lines env dir remote_context_pem_keys
          ∷ []);
      mode = private_mode;
    })

unfoldable pub build_remote_context_env_lines : Dict String → String
build_remote_context_env_lines env =
    let name = trim_space (value_of "GC_CITY_NAME" env) in
    let url = trim_space (value_of "GC_CITY_URL" env) in
    if str_eq name "" || str_eq url ""
    then ""
    else concat (
        "export GC_HOME=\"$NOMAD_SECRETS_DIR/gc-home\"\n"
        ∷ "export GC_CITY_CONTEXT="
        ∷ quote_text name
        ∷ "\n"
        ∷ [])
