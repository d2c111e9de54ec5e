-- ===== src/Staging/StagePath.antt =====
-- runtime/staging.go: which paths a staged file may have (validateStagePath), with Go's
-- filepath.Clean of a relative path, and the archive of the files (buildTar). An archive is its
-- entries; the writer's own failures and its bytes belong to Go's archive/tar.
pub mod Clean
pub mod Inside
use gc_runtime_nomad.Base.{
  ℕ, Bool, true, false, not, ◌&&◌, ◌||◌, List, [], ◌∷◌, String, ◌==◌, if◌then◌else◌,
}
use Prim.Native.Char.{Char, code}
use Prim.Native.String
use gc_runtime_nomad.Lifecycle.Error.{message, Result, ok, err}
use gc_runtime_nomad.Staging.Script.{StageFile}

-- The text is these characters, or begins with them.
unfoldable pub is_codes : String → List ℕ → Bool
is_codes String.[] [] = true
is_codes String.[] (d ∷ codes) = false
is_codes (String.◌∷◌ c s) [] = false
is_codes (String.◌∷◌ c s) (d ∷ codes) = code c == d && is_codes s codes

unfoldable pub begins : String → List ℕ → Bool
begins s [] = true
begins String.[] (d ∷ codes) = false
begins (String.◌∷◌ c s) (d ∷ codes) = code c == d && begins s codes

unfoldable pub is_empty : String → Bool
unfolding is_codes
is_empty p = is_codes p []

unfoldable pub is_dot : String → Bool
unfolding is_codes
is_dot p = is_codes p (b'.' ∷ [])

unfoldable pub is_up : String → Bool
unfolding is_codes
is_up p = is_codes p (b'.' ∷ b'.' ∷ [])

-- The parts of a path between its slashes.
unfoldable pub into_first : Char → List String → List String
into_first c [] = String.◌∷◌ c String.[] ∷ []
into_first c (p ∷ parts) = String.◌∷◌ c p ∷ parts

unfoldable pub components : String → List String
unfolding into_first
components String.[] = "" ∷ []
components (String.◌∷◌ c s) =
    let rest = components s in if code c == b'/' then "" ∷ rest else into_first c rest

-- `filepath.Clean` of a relative path: the parts that stay, the last one first.
unfoldable pub climb : List String → List String
unfolding is_up
climb [] = ".." ∷ []
climb (p ∷ stack) = if is_up p then ".." ∷ p ∷ stack else stack

unfoldable pub clean_step : String → List String → List String
unfolding is_empty is_dot is_up climb
clean_step p stack =
    if is_empty p || is_dot p then stack else if is_up p then climb stack else p ∷ stack

unfoldable pub clean_parts : List String → List String → List String
clean_parts stack [] = stack
clean_parts stack (p ∷ parts) = clean_parts (clean_step p stack) parts

-- The path of a part under a path.
unfoldable pub under : String → String → String
under String.[] p = String.◌∷◌ "/" p
under (String.◌∷◌ c s) p = String.◌∷◌ c (under s p)

unfoldable pub path_of : List String → String
unfolding under
path_of [] = "."
path_of (p ∷ []) = p
path_of (p ∷ q ∷ stack) = under (path_of (q ∷ stack)) p

unfoldable pub clean : String → String
unfolding clean_parts path_of components
clean path = path_of (clean_parts [] (components path))

unfoldable pub escapes : String → Bool
unfolding is_up begins
escapes path = is_up path || begins path (b'.' ∷ b'.' ∷ b'/' ∷ [])

unfoldable pub is_abs : String → Bool
unfolding begins
is_abs path = begins path (b'/' ∷ [])

unfoldable pub validate_stage_path : String → Result (Unit {0})
unfolding is_empty is_abs
validate_stage_path path =
    if is_empty path
    then err (message "staged file path is invalid: empty path")
    else if is_abs path
    then err (message "staged file path is invalid: absolute")
    else if escapes (clean path)
    then err (message "staged file path is invalid: escapes its destination directory")
    else ok tt

pub record TarEntry : Type 0 where
  pub name : String
  pub mode : ℕ
  pub content : String

-- 0o644 where no mode is given
unfoldable pub tar_entry : StageFile → TarEntry
tar_entry f = record {
  name = f.path;
  mode = if f.mode == 0 then 420 else f.mode;
  content = f.content;
}

unfoldable pub tar_from : TarEntry → Result (List TarEntry) → Result (List TarEntry)
tar_from entry (err e) = err e
tar_from entry (ok entries) = ok (entry ∷ entries)

-- The first path that is refused ends the loop.
unfoldable pub build_tar : List StageFile → Result (List TarEntry)
unfolding tar_entry tar_from
build_tar [] = ok []
build_tar (f ∷ files) = elim (validate_stage_path f.path) [
  | err e ↦ err e
  | ok valid ↦ tar_from (tar_entry f) (build_tar files)
]
