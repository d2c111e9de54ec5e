-- ===== src/Staging/Sources.antt =====
-- What staging reads on the host, and which of it may be staged: runtime/staging.go
-- (copyFilesToStageFiles) and runtime/arg_file_stage.go (argFileStageAllowed, argFilesToStage). The
-- host's files are arguments.

use gc_runtime_nomad.Base.{
  ℕ, Bool, false, not, ◌||◌, Option, none, some, List, [], ◌∷◌, String, leb, str_eq, starts_with,
  base, if◌then◌else◌,
}
use Prim.Native.String
use gc_runtime_nomad.Lifecycle.Error.{message, wrap, Result, ok, err}
use gc_runtime_nomad.Lifecycle.Types.{CopyEntry}
use gc_runtime_nomad.Staging.Script.{StageFile, private_mode}
use gc_runtime_nomad.Staging.StagePath.{
  is_empty, is_dot, is_up, is_abs, components, path_of, under, clean, validate_stage_path,
}

pub record HostFile : Type 0 where
  pub is_regular : Bool
  pub size : ℕ
  -- none where the read fails
  pub content : Option String

-- A file's content and mode, the regular files of a tree by their relative paths, or another thing.
pub data Source : Type 0 where
  file : String → ℕ → Source
  tree : List (String × String × ℕ) → Source
  neither : Source

-- `filepath.Clean` of an absolute path: a part that goes above the root is dropped.
unfoldable pub rooted_step : String → List String → List String
rooted_step p [] = if is_empty p || is_dot p || is_up p then [] else p ∷ []
rooted_step p (q ∷ stack) =
    if is_empty p || is_dot p then q ∷ stack else if is_up p then stack else p ∷ q ∷ stack

unfoldable pub rooted_parts : List String → List String → List String
unfolding rooted_step
rooted_parts stack [] = stack
rooted_parts stack (p ∷ parts) = rooted_parts (rooted_step p stack) parts

unfoldable pub rooted_path : List String → String
rooted_path [] = "/"
rooted_path (p ∷ stack) = String.◌++◌ "/" (path_of (p ∷ stack))

unfoldable pub clean_path : String → String
unfolding rooted_parts rooted_path
clean_path path =
    if is_abs path then rooted_path (rooted_parts [] (components path)) else clean path

-- `filepath.Join(a, b)`
unfoldable pub join_two : String → String → String
unfolding clean_path
join_two a b =
    if str_eq a ""
    then if str_eq b "" then "" else clean_path b
    else if str_eq b ""
    then clean_path a
    else clean_path (under a b)

unfoldable pub tree_files : String → List (String × String × ℕ) → List StageFile
unfolding join_two
tree_files dst [] = []
tree_files dst ((rel, content, mode) ∷ entries) =
    (record { path = join_two dst rel; content = content; mode = mode }) ∷ tree_files dst entries

unfoldable pub source_files : CopyEntry → Source → Result (List StageFile)
unfolding tree_files
source_files entry (file content mode) = ok (
    (record {
      path = if str_eq entry.rel_dst "" then base entry.src else entry.rel_dst;
      content = content;
      mode = mode;
    })
    ∷ [])
source_files entry (tree entries) = ok (tree_files entry.rel_dst entries)
source_files entry neither = err (message "copy_files src is neither a file nor a directory")

-- The destinations, each checked.
unfoldable pub check_destinations : List StageFile → Result (Unit {0})
check_destinations [] = ok tt
check_destinations (f ∷ files) = elim (validate_stage_path f.path) [
  | err e ↦ err (wrap "copy_files destination" e)
  | ok valid ↦ check_destinations files
]

-- argFileStageMaxBytes
abbrev pub arg_file_stage_max_bytes : ℕ
arg_file_stage_max_bytes = 1_048_576

-- argFileStageDenied
abbrev pub arg_file_stage_denied : List String
arg_file_stage_denied = ".gc/secrets.env" ∷ ".gc/run" ∷ ".ssh" ∷ ".aws" ∷ ".config/gh" ∷ []

unfoldable pub is_denied : String → String → List String → Bool
is_denied home resolved [] = false
is_denied home resolved (deny ∷ denied) =
    let full = clean_path (join_two home deny) in
    str_eq resolved full
    || starts_with resolved (String.◌++◌ full "/")
    || is_denied home resolved denied

-- The path with its links resolved, and the home directory if it is known.
unfoldable pub arg_file_stage_allowed : Option String → String → Bool
unfolding is_denied
arg_file_stage_allowed none resolved = false
arg_file_stage_allowed (some home) resolved =
    not (is_denied home (clean_path resolved) arg_file_stage_denied)

-- The file that an argument names, if it is one to stage.
unfoldable pub arg_file : String → Option HostFile → List StageFile
arg_file path none = []
arg_file path (some f) =
    if not f.is_regular || not (leb f.size arg_file_stage_max_bytes) then [] else elim f.content [
      | none ↦ []
      | some content ↦ (record { path = path; content = content; mode = private_mode }) ∷ []
    ]
