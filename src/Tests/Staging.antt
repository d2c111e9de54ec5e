-- ===== src/Tests/Staging.antt =====
-- Staging at small inputs, and each of its theorems applied.
use gc_runtime_nomad.Base.{some, List, [], ◌∷◌, String, Dict, ◌≡◌, ◌↔◌, refl, lookup, All}
use gc_runtime_nomad.Lifecycle.Error.{ok, err, message}
use gc_runtime_nomad.Staging.Options.{launch_option_env, merge_launch_option_env}
use gc_runtime_nomad.Staging.Options.Safety.{
  IsOption, launch_option_env-IsOption, merge_launch_option_env-keeps,
}
use gc_runtime_nomad.Staging.Script.{StageFile}
use gc_runtime_nomad.Staging.StagePath.{
  TarEntry, escapes, clean, clean_step, clean_parts, validate_stage_path,
}
use gc_runtime_nomad.Staging.StagePath.Inside.{IsInside, validate_stage_path-IsInside_iff}

abbrev launch_line : String
launch_line = "claude --model opus --effort high"

launch_option_env-IsOption_example : All IsOption (launch_option_env launch_line)
launch_option_env-IsOption_example = launch_option_env-IsOption launch_line

abbrev env : Dict String
env = ("ANTHROPIC_MODEL", "sonnet") ∷ ("TOKEN", "t") ∷ []

merge_launch_option_env-keeps_example :
    lookup "TOKEN" (merge_launch_option_env env launch_line) ≡ some "t"
unfolding lookup
merge_launch_option_env-keeps_example =
    merge_launch_option_env-keeps env launch_line "TOKEN" "t" refl

validate_stage_path-IsInside_iff_example :
    (validate_stage_path "a/../b" ≡ ok tt) ↔ IsInside "a/../b"
validate_stage_path-IsInside_iff_example = validate_stage_path-IsInside_iff "a/../b"

abbrev files : List StageFile
files = (record { path = "a/b"; content = "x"; mode = 420 }) ∷ []

abbrev entries : List TarEntry
entries = (record { name = "a/b"; mode = 420; content = "x" }) ∷ []

-- A path that leaves the root is refused, one that comes back below it is not.
escape_refused :
    validate_stage_path "a/../../b"
    ≡ err (message "staged file path is invalid: escapes its destination directory")
unfolding validate_stage_path escapes clean clean_step clean_parts
escape_refused = refl
