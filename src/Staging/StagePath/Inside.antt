-- ===== src/Staging/StagePath/Inside.antt =====
-- Which paths are accepted for a staged file, and what an archive holds (runtime/staging.go,
-- validateStagePath, buildTar).
use gc_runtime_nomad.Base.{
  Bool, true, false, not, ◌&&◌, ◌||◌, List, [], ◌∷◌, String, ◌≡◌, ◌↔◌, refl, ◌∙◌, map, ◌==◌, All,
  arith, Bool-cases, inl, inr, if◌then◌else◌,
}
use Prim.Native.Char.{Char, code}
use gc_runtime_nomad.Lifecycle.Error.{Result, ok, err}
use gc_runtime_nomad.Staging.Script.{StageFile}
use gc_runtime_nomad.Staging.StagePath.{
  is_codes, begins, is_empty, is_dot, is_up, into_first, components, climb, clean_step, clean_parts,
  under, path_of, clean, escapes, is_abs, validate_stage_path, TarEntry, tar_entry,
}
use gc_runtime_nomad.Staging.StagePath.Clean.{stays_below, bottom_up, stays-parts}

-- No character of the text is a slash.
abbrev slash_free : String → Bool
slash_free String.[] = true
slash_free (String.◌∷◌ c s) = not (code c == b'/') && slash_free s

abbrev IsPart : String → Type 0
IsPart p = slash_free p ≡ true

into_first-IsPart :
    (c : Char) (parts : List String)
    → (code c == b'/') ≡ false
    → All IsPart parts
    → All IsPart (into_first c parts)
unfolding into_first
into_first-IsPart c [] other h = ground arith
into_first-IsPart c (p ∷ parts) other h = (ground arith, h.1)

components-IsPart : (path : String) → All IsPart (components path)
unfolding components
components-IsPart String.[] = (refl, tt)
components-IsPart (String.◌∷◌ c s) = either (code c == b'/') refl (components-IsPart s)
  where
    either :
        (slash : Bool)
        → (code c == b'/') ≡ slash
        → All IsPart (components s)
        → All IsPart (if slash then "" ∷ components s else into_first c (components s))
    either true is_slash h = (refl, h)
    either false other h = into_first-IsPart c (components s) other h

clean_step-IsPart :
    (p : String) (stack : List String)
    → IsPart p
    → All IsPart stack
    → All IsPart (clean_step p stack)
unfolding clean_step climb
clean_step-IsPart p [] hp h = elim (Bool-cases (is_empty p || is_dot p)) [
  | inl skip ↦ rw skip tt
  | inr named ↦ elim (Bool-cases (is_up p)) [
    | inl up ↦ rw (named, up) (refl, tt)
    | inr plain ↦ rw (named, plain) (hp, tt)
  ]
]
clean_step-IsPart p (q ∷ stack) hp h = elim (Bool-cases (is_empty p || is_dot p)) [
  | inl skip ↦ rw skip h
  | inr named ↦ elim (Bool-cases (is_up p)) [
    | inr plain ↦ rw (named, plain) (hp, h)
    | inl up ↦ elim (Bool-cases (is_up q)) [
      | inl high ↦ rw (named, up, high) (refl, h)
      | inr low ↦ rw (named, up, low) (h.1)
    ]
  ]
]

clean_parts-IsPart :
    (stack parts : List String)
    → All IsPart stack
    → All IsPart parts
    → All IsPart (clean_parts stack parts)
unfolding clean_parts
clean_parts-IsPart stack [] hs h = hs
clean_parts-IsPart stack (p ∷ parts) hs h =
    clean_parts-IsPart (clean_step p stack) parts (clean_step-IsPart p stack h.0 hs) h.1

-- A part alone goes above its directory only if it is "..".
escapes-part : (p : String) → IsPart p → escapes p ≡ is_up p
unfolding escapes is_up is_codes begins
escapes-part String.[] h = refl
escapes-part (String.◌∷◌ a String.[]) h = ground arith
escapes-part (String.◌∷◌ a (String.◌∷◌ b String.[])) h = ground arith
escapes-part (String.◌∷◌ a (String.◌∷◌ b (String.◌∷◌ c p))) h = ground arith

-- What stands behind a slash does not matter.
escapes-under : (path p : String) → escapes (under path p) ≡ escapes path
unfolding under escapes is_up is_codes begins
escapes-under String.[] p = refl
escapes-under (String.◌∷◌ a String.[]) p = ground arith
escapes-under (String.◌∷◌ a (String.◌∷◌ b String.[])) p = ground arith
escapes-under (String.◌∷◌ a (String.◌∷◌ b (String.◌∷◌ c path))) p = ground arith

escapes-path_of :
    (stack : List String) → All IsPart stack → escapes (path_of stack) ≡ bottom_up stack
unfolding path_of
escapes-path_of [] h = unfold escapes is_up is_codes begins in refl
escapes-path_of (p ∷ []) h = escapes-part p h.0
escapes-path_of (p ∷ q ∷ stack) h =
    escapes-under (path_of (q ∷ stack)) p ∙ escapes-path_of (q ∷ stack) h.1

-- The path as it is cleaned goes above its directory just where a walk along its parts does.
escapes-clean : (path : String) → escapes (clean path) ≡ not (stays_below 0 (components path))
unfolding clean
escapes-clean path =
    escapes-path_of (clean_parts [] (components path))
      (clean_parts-IsPart [] (components path) tt (components-IsPart path))
    ∙ stays-parts [] (components path) tt

-- A path stays in its directory: it is not empty, does not begin with a slash, and a walk along the
-- parts between its slashes never goes above the directory that it starts in.
abbrev pub IsInside : String → Type 0
IsInside path =
    (is_empty path ≡ false) × (is_abs path ≡ false) × (stays_below 0 (components path) ≡ true)

validate_stage_path_sound : (path : String) → validate_stage_path path ≡ ok tt → IsInside path
unfolding validate_stage_path
validate_stage_path_sound path h = ground (arith, escapes-clean path, h)

validate_stage_path_complete : (path : String) → IsInside path → validate_stage_path path ≡ ok tt
unfolding validate_stage_path
validate_stage_path_complete path h = ground (arith, escapes-clean path)

-- A path of a staged file is accepted if and only if it stays inside its directory: it is not empty
-- and not absolute, and a walk along the parts between its slashes, where "." and the empty part
-- stay and ".." goes up, never goes above the directory that it starts in.
pub validate_stage_path-IsInside_iff :
    (path : String) → (validate_stage_path path ≡ ok tt) ↔ IsInside path
validate_stage_path-IsInside_iff path =
    (validate_stage_path_sound path, validate_stage_path_complete path)

ok_or : List TarEntry → Result (List TarEntry) → List TarEntry
ok_or d (ok e) = e
ok_or d (err e) = d

abbrev pub IsArchive : List StageFile → List TarEntry → Type 0
IsArchive files entries = (entries ≡ map tar_entry files) × All (λ e. IsInside e.name) entries
