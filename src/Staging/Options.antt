-- ===== src/Staging/Options.antt =====
-- runtime/staging.go: the provider options that gc renders into the launch command
-- (mergeLaunchOptionEnv, launchOptionEnv, parseCodexSetting, safeLaunchOptionValue).

pub mod Safety
use gc_runtime_nomad.Base.{
  ℕ, Bool, true, false, ◌&&◌, ◌||◌, Option, none, some, List, [], ◌∷◌, String, Dict, lookup, insert,
  ◌==◌, leb, str_eq, starts_with, trim_space, trim_of, trim_prefix, contains_any, fields,
  if◌then◌else◌,
}
use Prim.Native.Char.{code}
use Prim.Native.String

abbrev pub marks : String
marks = "'\""

unfoldable pub is_safe_code : ℕ → Bool
is_safe_code c =
    (leb b'a' c && leb c b'z')
    || (leb b'A' c && leb c b'Z')
    || (leb b'0' c && leb c b'9')
    || c == b'.'
    || c == b'_'
    || c == b':'
    || c == b'-'

unfoldable pub all_safe : String → Bool
unfolding is_safe_code
all_safe String.[] = true
all_safe (String.◌∷◌ c s) = is_safe_code (code c) && all_safe s

unfoldable pub safe_launch_option_value : String → Bool → String
safe_launch_option_value raw effort =
    let value = trim_of (trim_space raw) marks in
    if all_safe value then if effort && contains_any value ".:_" then "" else value else ""

-- A setting, unless its value is empty.
unfoldable pub setting : String → String → Option (String × String)
setting key value = if str_eq value "" then none else some (key, value)

unfoldable pub effort_setting : String → Option (String × String)
unfolding setting
effort_setting word =
    if starts_with word "model_reasoning_effort="
    then setting "GC_REASONING_EFFORT"
        (safe_launch_option_value (trim_prefix word "model_reasoning_effort=") true)
    else none

unfoldable pub model_setting : String → Option (String × String)
unfolding setting
model_setting text = setting "GC_MODEL" (safe_launch_option_value text false)

-- none is the pair of two empty texts.
unfoldable pub parse_codex_setting : String → Option (String × String)
parse_codex_setting raw =
    let word = trim_of (trim_space raw) marks in
    if starts_with word "model="
    then elim (model_setting (trim_prefix word "model=")) [
      | some s ↦ some s
      | none ↦ effort_setting word
    ]
    else effort_setting word

unfoldable pub set_option : Option (String × String) → Dict String → Dict String
unfolding insert
set_option none options = options
set_option (some (key, value)) options = insert key value options

-- The setting of a word that carries its own value.
unfoldable pub word_setting : String → Option (String × String)
word_setting word =
    if starts_with word "--model="
    then model_setting (trim_prefix word "--model=")
    else if starts_with word "-m="
    then model_setting (trim_prefix word "-m=")
    else if starts_with word "model="
    then model_setting (trim_prefix word "model=")
    else if starts_with word "model_reasoning_effort="
    then parse_codex_setting word
    else none

-- A word whose value is the next word.
unfoldable pub takes_next : String → Bool
takes_next word = str_eq word "--model" || str_eq word "-m" || str_eq word "-c"

unfoldable pub next_setting : String → String → Option (String × String)
next_setting word next = if str_eq word "-c" then parse_codex_setting next else model_setting next

-- The loop's state between two words: the word that waits for its value, and the options.
unfoldable pub option_step : Option String → String → Dict String → Option String × Dict String
unfolding set_option next_setting takes_next word_setting
option_step (some word) raw options = (none, set_option (next_setting word raw) options)
option_step none raw options =
    let word = trim_of raw marks in
    if takes_next word then (some word, options) else (none, set_option (word_setting word) options)

unfoldable pub options_from : List String → Option String × Dict String → Dict String
unfolding option_step
options_from [] (_, options) = options
options_from (raw ∷ words) (waiting, options) = options_from words (option_step waiting raw options)

unfoldable pub launch_option_env : String → Dict String
launch_option_env command = options_from (fields command) (none, [])

-- An entry of the map stays.
unfoldable pub add_missing : Dict String → Dict String → Dict String
unfolding lookup insert
add_missing [] env = env
add_missing ((key, value) ∷ options) env =
    let added : Dict String = elim (lookup key env) [
      | some old ↦ env
      | none ↦ insert key value env
    ] in
    add_missing options added

unfoldable pub merge_launch_option_env : Dict String → String → Dict String
unfolding add_missing launch_option_env
merge_launch_option_env env command = add_missing (launch_option_env command) env
