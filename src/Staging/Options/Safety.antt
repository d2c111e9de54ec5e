-- ===== src/Staging/Options/Safety.antt =====
-- What the launch command can put into a box's environment (runtime/staging.go, launchOptionEnv,
-- mergeLaunchOptionEnv).
use gc_runtime_nomad.Base.{
  Bool, true, false, ◌&&◌, Option, none, some, List, [], ◌∷◌, String, Dict, ◌≡◌, refl, ◌⊎◌, inl,
  inr, lookup, insert, lookup-insert, str_eq, eq_iff, starts_with, trim_space, trim_of,
  contains_any, fields, All, arith, Bool-cases, Option-cases, if◌then◌else◌,
}
use gc_runtime_nomad.Staging.Options.{
  marks, all_safe, safe_launch_option_value, setting, effort_setting, model_setting,
  parse_codex_setting, set_option, word_setting, takes_next, next_setting, option_step,
  options_from, launch_option_env, add_missing, merge_launch_option_env,
}

-- An option's key is one of the two, and its value is made of safe characters and not empty.
abbrev pub IsOption : String × String → Type 0
IsOption (key, value) =
    ((key ≡ "GC_MODEL") ⊎ (key ≡ "GC_REASONING_EFFORT"))
    × (all_safe value ≡ true)
    × (str_eq value "" ≡ false)

abbrev IsSetting : Option (String × String) → Type 0
IsSetting none = Unit
IsSetting (some s) = IsOption s

guarded :
    (value : String) (safe empty : Bool)
    → all_safe value ≡ safe
    → all_safe (if safe then if empty then "" else value else "") ≡ true
unfolding all_safe
guarded value true true h = refl
guarded value true false h = h
guarded value false empty h = refl

safe_value : (raw : String) (effort : Bool) → all_safe (safe_launch_option_value raw effort) ≡ true
unfolding safe_launch_option_value
safe_value raw effort =
    guarded (trim_of (trim_space raw) marks) _
      (effort && contains_any (trim_of (trim_space raw) marks) ".:_") refl

setting-IsSetting :
    (key value : String)
    → (key ≡ "GC_MODEL") ⊎ (key ≡ "GC_REASONING_EFFORT")
    → all_safe value ≡ true
    → IsSetting (setting key value)
unfolding setting
setting-IsSetting key value known safe = elim (Bool-cases (str_eq value "")) [
  | inl empty ↦ rw empty tt
  | inr full ↦ rw full (known, safe, full)
]

model-IsSetting : (text : String) → IsSetting (model_setting text)
unfolding model_setting
model-IsSetting text = setting-IsSetting "GC_MODEL" _ (inl refl) (safe_value text false)

if-IsSetting :
    (b : Bool) (s t : Option (String × String))
    → IsSetting s
    → IsSetting t
    → IsSetting (if b then s else t)
if-IsSetting true s t hs ht = hs
if-IsSetting false s t hs ht = ht

effort-IsSetting : (word : String) → IsSetting (effort_setting word)
unfolding effort_setting
effort-IsSetting word =
    if-IsSetting (starts_with word "model_reasoning_effort=") _ none
      (setting-IsSetting "GC_REASONING_EFFORT" _ (inr refl) (safe_value _ true)) tt

or-IsSetting :
    (s t : Option (String × String))
    → IsSetting s
    → IsSetting t
    → IsSetting (elim s [ some u ↦ some u | none ↦ t ])
or-IsSetting none t hs ht = ht
or-IsSetting (some u) t hs ht = hs

parse-IsSetting : (raw : String) → IsSetting (parse_codex_setting raw)
unfolding parse_codex_setting
parse-IsSetting raw =
    if-IsSetting (starts_with _ "model=") _ _
      (or-IsSetting _ _ (model-IsSetting _) (effort-IsSetting _)) (effort-IsSetting _)

word-IsSetting : (word : String) → IsSetting (word_setting word)
unfolding word_setting
word-IsSetting word = if-IsSetting (starts_with word "--model=") _ _ (model-IsSetting _) (
    if-IsSetting (starts_with word "-m=") _ _ (model-IsSetting _) (
      if-IsSetting (starts_with word "model=") _ _ (model-IsSetting _) (
        if-IsSetting (starts_with word "model_reasoning_effort=") _ none (parse-IsSetting word)
          tt)))

next-IsSetting : (word next : String) → IsSetting (next_setting word next)
unfolding next_setting
next-IsSetting word next =
    if-IsSetting (str_eq word "-c") _ _ (parse-IsSetting next) (model-IsSetting next)

insert-IsOption :
    (key value : String) (options : Dict String)
    → IsOption (key, value)
    → All IsOption options
    → All IsOption (insert key value options)
unfolding insert
insert-IsOption key value [] h hs = (h, tt)
insert-IsOption key value ((k, v) ∷ options) h hs = elim (Bool-cases (str_eq k key)) [
  | inl same ↦ rw same (h, hs.1)
  | inr other ↦ rw other (hs.0, insert-IsOption key value options h hs.1)
]

set-IsOption :
    (s : Option (String × String)) (options : Dict String)
    → IsSetting s
    → All IsOption options
    → All IsOption (set_option s options)
unfolding set_option
set-IsOption none options h hs = hs
set-IsOption (some (key, value)) options h hs = insert-IsOption key value options h hs

step-IsOption :
    (waiting : Option String) (raw : String) (options : Dict String)
    → All IsOption options
    → All IsOption (option_step waiting raw options).1
unfolding option_step
step-IsOption (some word) raw options h = set-IsOption _ options (next-IsSetting word raw) h
step-IsOption none raw options h = elim (Bool-cases (takes_next (trim_of raw marks))) [
  | inl takes ↦ rw takes h
  | inr plain ↦ rw plain (set-IsOption _ options (word-IsSetting (trim_of raw marks)) h)
]

from-IsOption :
    (words : List String) (waiting : Option String) (options : Dict String)
    → All IsOption options
    → All IsOption (options_from words (waiting, options))
unfolding options_from
from-IsOption [] waiting options h = h
from-IsOption (raw ∷ words) waiting options h =
    from-IsOption words (option_step waiting raw options).0 (option_step waiting raw options).1
      (step-IsOption waiting raw options h)

-- Whatever the launch command says, it can only set the model and the reasoning effort, each to a
-- text that is not empty and has only letters, digits and the characters ".", "_", ":" and "-".
pub launch_option_env-IsOption : (command : String) → All IsOption (launch_option_env command)
unfolding launch_option_env
launch_option_env-IsOption command = from-IsOption (fields command) none [] tt

kept_one :
    (key value : String) (env : Dict String) (k v : String)
    → lookup key env ≡ some value
    → lookup key
        (elim (lookup k env) as (λ _. Dict String) [ some old ↦ env | none ↦ insert k v env ])
      ≡ some value
kept_one key value env k v found = elim (Option-cases (lookup k env)) [
  | inl missing ↦
      rw missing (ground (arith, lookup-insert k key v env, eq_iff k key, missing, found))
  | inr (old, there) ↦ rw there found
]

add_missing-keeps :
    (options env : Dict String) (key value : String)
    → lookup key env ≡ some value
    → lookup key (add_missing options env) ≡ some value
unfolding add_missing
add_missing-keeps [] env key value found = found
add_missing-keeps ((k, v) ∷ options) env key value found =
    add_missing-keeps options _ key value (kept_one key value env k v found)

-- A key that the session's environment sets keeps its value, whatever the launch command says.
pub merge_launch_option_env-keeps :
    (env : Dict String) (command key value : String)
    → lookup key env ≡ some value
    → lookup key (merge_launch_option_env env command) ≡ some value
unfolding merge_launch_option_env
merge_launch_option_env-keeps env command key value found =
    add_missing-keeps (launch_option_env command) env key value found
