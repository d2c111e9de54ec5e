-- ===== src/Staging/Capture.antt =====
-- The pane's shell command: runtime/ops.go (stripLeadingExec, agentCaptureBody, paneCwdPrelude,
-- cityMirrorPrelude) and runtime/host_path_args.go (absolutePathArgs, hostPathProbe). The process's
-- environment is an argument.
use gc_runtime_nomad.Base.{
  Bool, not, ◌&&◌, ◌||◌, Option, none, some, List, [], ◌∷◌, String, ◌==◌, str_eq, starts_with, cut,
  any_eq, trim_space, trim_prefix, trim_left_of, contains_any, fields, sort, concat, if◌then◌else◌,
}
use Prim.Native.Char.{code}
use Prim.Native.String
use gc_runtime_nomad.Staging.Script.{quote_text}

-- none where the command does not begin with the word `exec`
unfoldable pub strip_leading_exec : String → Option String
strip_leading_exec command =
    if starts_with command "exec " || starts_with command "exec\t"
    then some (trim_left_of (trim_prefix command "exec") " \t")
    else none

-- The text in front of the first blank or tab.
unfoldable pub first_word : String → String
first_word String.[] = ""
first_word (String.◌∷◌ c s) =
    if code c == 32 || code c == 9 then "" else String.◌∷◌ c (first_word s)

-- The value of `key=value`, or the word.
unfoldable pub argument_value : String → String × Option String → String
argument_value word (before, none) = word
argument_value word (before, some value) = value

unfoldable pub is_absolute_argument : String → Bool
is_absolute_argument token =
    starts_with token "/" && not (str_eq token "/") && not (contains_any token "'\"$*?[]{}()<>|&;`")

-- `seen[token] = true`
unfoldable pub see : String → List String → List String
see token seen = if any_eq token seen then seen else token ∷ seen

unfoldable pub seen_arguments : List String → List String
unfolding argument_value is_absolute_argument see any_eq
seen_arguments [] = []
seen_arguments (word ∷ words) =
    let token = argument_value word (cut b'=' word) in
    let seen = seen_arguments words in if is_absolute_argument token then see token seen else seen

unfoldable pub absolute_path_args : String → List String
unfolding seen_arguments
absolute_path_args command = sort (seen_arguments (fields command))

unfoldable pub quoted_words : List String → String
quoted_words [] = ""
quoted_words (p ∷ []) = quote_text p
quoted_words (p ∷ q ∷ paths) = concat (quote_text p ∷ " " ∷ quoted_words (q ∷ paths) ∷ [])

unfoldable pub host_path_probe : List String → String
unfolding quoted_words
host_path_probe [] = ""
host_path_probe (p ∷ paths) = concat (
    "for __gc_p in "
    ∷ quoted_words (p ∷ paths)
    ∷ "; do [ -e \"$__gc_p\" ] || printf 'missing-path: %s\\n' \"$__gc_p\" >> \"$__gc_cap/agent.paths\"; done 2>/dev/null; "
    ∷ [])

unfoldable pub pane_body : String → String
unfolding strip_leading_exec
pane_body pane_command =
    let command = trim_space pane_command in
    elim (strip_leading_exec command) [ none ↦ command | some rest ↦ rest ]

unfoldable pub agent_capture_body : String → String
unfolding pane_body first_word absolute_path_args
agent_capture_body pane_command =
    let command = pane_body pane_command in
    concat (
      "__gc_cap=\"${NOMAD_ALLOC_DIR:-/tmp}/data\"; mkdir -p \"$__gc_cap\" 2>/dev/null || true; "
      ∷ "trap : INT; "
      ∷ host_path_probe (absolute_path_args command)
      ∷ "__gc_started=$(date -u +%Y-%m-%dT%H:%M:%SZ 2>/dev/null || echo unknown); "
      ∷ "{ "
      ∷ command
      ∷ "; }; __gc_rc=$?; "
      ∷ "{ printf 'exit=%s started=%s ended=%s pane=%s argv0=%s alloc=%s\\n' "
      ∷ "\"$__gc_rc\" \"$__gc_started\" \"$(date -u +%Y-%m-%dT%H:%M:%SZ 2>/dev/null || echo unknown)\" "
      ∷ "\"${TMUX_PANE:-}\" "
      ∷ quote_text (first_word command)
      ∷ " \"${NOMAD_ALLOC_ID:-}\" "
      ∷ "> \"$__gc_cap/agent.exit.$$\" && mv -f \"$__gc_cap/agent.exit.$$\" \"$__gc_cap/agent.exit\"; } || true; "
      ∷ "exit $__gc_rc"
      ∷ [])

-- The branch arguments of `git clone`.
unfoldable pub branch_args : String → String
branch_args branch =
    if str_eq branch "" then "" else concat ("--branch " ∷ quote_text branch ∷ " " ∷ [])

unfoldable pub mirror_script : String → String → String
unfolding branch_args
mirror_script url branch = concat (
    "( __gc_mirror_status=error; if command -v git >/dev/null 2>&1; then __gc_mirror_to=\"\"; "
    ∷ "if command -v timeout >/dev/null 2>&1; then __gc_mirror_to=\"timeout 60\"; fi; "
    ∷ "if [ -d .git ]; then if $__gc_mirror_to git fetch --depth 1 origin >&2 && git reset --hard FETCH_HEAD >&2; then __gc_mirror_status=ok; fi; "
    ∷ "elif [ -z \"$(ls -A . 2>/dev/null)\" ]; then if $__gc_mirror_to git clone --depth 1 "
    ∷ branch_args branch
    ∷ quote_text url
    ∷ " . >&2; then __gc_mirror_status=ok; fi; else "
    ∷ "echo \"gc-runtime-nomad: GC_NOMAD_CITY_MIRROR_URL is set but the working directory is non-empty and not a git checkout; skipping clone\" >&2; __gc_mirror_status=skipped_nonempty; fi; else "
    ∷ "echo \"gc-runtime-nomad: GC_NOMAD_CITY_MIRROR_URL is set but no git binary is on PATH in this image; skipping clone\" >&2; __gc_mirror_status=no_git; fi; "
    ∷ "if [ -n \"${NOMAD_SECRETS_DIR:-}\" ]; then mkdir -p \"$NOMAD_SECRETS_DIR/gc-city-checkout\" 2>/dev/null; "
    ∷ "git rev-parse HEAD > \"$NOMAD_SECRETS_DIR/gc-city-checkout/sha\" 2>/dev/null || : > \"$NOMAD_SECRETS_DIR/gc-city-checkout/sha\"; "
    ∷ "printf '%s\\n' \"$__gc_mirror_status\" > \"$NOMAD_SECRETS_DIR/gc-city-checkout/status\" 2>/dev/null || true; fi; ) ; "
    ∷ [])

unfoldable pub city_mirror_prelude : (String → String) → String
unfolding mirror_script
city_mirror_prelude getenv =
    let url = trim_space (getenv "GC_NOMAD_CITY_MIRROR_URL") in
    if str_eq url ""
    then ""
    else mirror_script url (trim_space (getenv "GC_NOMAD_CITY_MIRROR_BRANCH"))

abbrev pub scratch_prelude : String
scratch_prelude =
    "if [ -n \"${NOMAD_ALLOC_DIR:-}\" ]; then mkdir -p \"$NOMAD_ALLOC_DIR/work\" 2>/dev/null && cd \"$NOMAD_ALLOC_DIR/work\" 2>/dev/null; fi; "

unfoldable pub pane_cwd_prelude : (String → String) → String → String
unfolding city_mirror_prelude
pane_cwd_prelude getenv work_dir =
    let dir = trim_space work_dir in
    String.◌++◌
      (if str_eq dir ""
        then scratch_prelude
        else concat ("cd " ∷ quote_text dir ∷ " 2>/dev/null || " ∷ scratch_prelude ∷ []))
      (city_mirror_prelude getenv)
