-- ===== src/Base/Words.antt =====
-- More of Go's `strings` functions on texts: words, prefixes and suffixes, sets of characters.
use Prim.Native.Char.{code}
use Prim.Native.String
use Prim.Native.String.{String}
use text.Mathlib.Text.{starts_with, ◌==◌ as str_eq}
use Prim.Native.Nat.{ℕ}
use mathlib.Core.List.{List, [], ◌∷◌}
use mathlib.Core.Bool.{Bool, true, false, ◌||◌, ◌&&◌}
use gc_runtime_nomad.Base.Tests.{◌==◌, if◌then◌else◌}
use gc_runtime_nomad.Base.Text.{is_space, lower}

unfoldable pub any_eq : String → List String → Bool
any_eq t [] = false
any_eq t (u ∷ texts) = str_eq t u || any_eq t texts

unfoldable pub any_code : ℕ → String → Bool
any_code c String.[] = false
any_code c (String.◌∷◌ d chars) = c == code d || any_code c chars

-- `strings.ContainsAny(s, chars)`
unfoldable pub contains_any : String → String → Bool
unfolding any_code
contains_any String.[] chars = false
contains_any (String.◌∷◌ c s) chars = any_code (code c) chars || contains_any s chars

-- What stands behind a prefix that the text has.
after_prefix : String → String → String
after_prefix String.[] s = s
after_prefix (String.◌∷◌ c p) String.[] = ""
after_prefix (String.◌∷◌ c p) (String.◌∷◌ d s) = after_prefix p s

-- `strings.TrimPrefix(s, prefix)`
unfoldable pub trim_prefix : String → String → String
unfolding after_prefix
trim_prefix s prefix = if starts_with s prefix then after_prefix prefix s else s

-- `strings.TrimSuffix(s, suffix)`, for a suffix that is not empty.
unfoldable pub trim_suffix : String → String → String
trim_suffix String.[] suffix = ""
trim_suffix (String.◌∷◌ c s) suffix =
    if str_eq (String.◌∷◌ c s) suffix then "" else String.◌∷◌ c (trim_suffix s suffix)

all_in : String → String → Bool
unfolding any_code
all_in String.[] chars = true
all_in (String.◌∷◌ c s) chars = if any_code (code c) chars then all_in s chars else false

-- `strings.TrimLeft(s, chars)`
unfoldable pub trim_left_of : String → String → String
unfolding any_code
trim_left_of String.[] chars = ""
trim_left_of (String.◌∷◌ c s) chars =
    if any_code (code c) chars then trim_left_of s chars else String.◌∷◌ c s

trim_right_of : String → String → String
unfolding all_in
trim_right_of String.[] chars = ""
trim_right_of (String.◌∷◌ c s) chars =
    if all_in (String.◌∷◌ c s) chars then "" else String.◌∷◌ c (trim_right_of s chars)

-- `strings.Trim(s, chars)`
unfoldable pub trim_of : String → String → String
unfolding trim_left_of trim_right_of
trim_of s chars = trim_right_of (trim_left_of s chars) chars

-- The words so far, with the one that is being read in front of the rest of the text.
abbrev close_word : String → List String → List String
close_word word words = if str_eq word "" then words else word ∷ words

fields_from : String → String → List String
unfolding is_space
fields_from word String.[] = close_word word []
fields_from word (String.◌∷◌ c s) =
    let closed = close_word word (fields_from "" s) in
    let longer = fields_from (String.◌++◌ word (String.◌∷◌ c String.[])) s in
    if is_space (code c) then closed else longer

-- `strings.Fields(s)`
unfoldable pub fields : String → List String
unfolding fields_from
fields s = fields_from "" s

-- `s` with `to` for each character `from`; `strings.ReplaceAll` at a one-character text.
unfoldable pub replace_code : ℕ → String → String → String
replace_code from to String.[] = ""
replace_code from to (String.◌∷◌ c s) =
    String.◌++◌ (if code c == from then to else String.◌∷◌ c String.[]) (replace_code from to s)

unfoldable pub concat : List String → String
concat [] = ""
concat (t ∷ texts) = String.◌++◌ t (concat texts)

begins_lower : String → String → Bool
unfolding lower
begins_lower s String.[] = true
begins_lower String.[] (String.◌∷◌ d t) = false
begins_lower (String.◌∷◌ c s) (String.◌∷◌ d t) = lower (code c) == code d && begins_lower s t

-- `strings.Contains(strings.ToLower(s), part)`, for a part of lower-case ASCII characters.
unfoldable pub contains_lower : String → String → Bool
unfolding begins_lower
contains_lower String.[] part = begins_lower "" part
contains_lower (String.◌∷◌ c s) part = begins_lower (String.◌∷◌ c s) part || contains_lower s part
