-- ===== src/Lifecycle/Excerpt.antt =====
-- runtime/ops.go: what a box printed, as an error's text shows it (execExcerpt). The limit counts
-- characters.
use Prim.Native.Char.{Char, code}
use Prim.Native.String
use gc_runtime_nomad.Base.{
  ℕ, zero, suc, Bool, true, false, ◌||◌, [], ◌∷◌, String, ◌==◌, ltb, hex_byte, trim_space, concat,
  if◌then◌else◌,
}

-- The first characters of a text.
unfoldable pub first_of : ℕ → String → String
first_of zero s = ""
first_of (suc n) String.[] = ""
first_of (suc n) (String.◌∷◌ c s) = String.◌∷◌ c (first_of n s)

unfoldable pub is_longer : ℕ → String → Bool
is_longer n String.[] = false
is_longer zero (String.◌∷◌ c s) = true
is_longer (suc n) (String.◌∷◌ c s) = is_longer n s

-- `strconv.Quote` of one character; those past ASCII stand as they are.
abbrev pub escape_code : Char → String
escape_code c =
    if code c == 34
    then "\\\""
    else if code c == 92
    then "\\\\"
    else if code c == 7
    then "\\a"
    else if code c == 8
    then "\\b"
    else if code c == 9
    then "\\t"
    else if code c == 10
    then "\\n"
    else if code c == 11
    then "\\v"
    else if code c == 12
    then "\\f"
    else if code c == 13
    then "\\r"
    else if ltb (code c) 32 || code c == 127
    then String.◌++◌ "\\x" (hex_byte (code c))
    else String.◌∷◌ c String.[]

unfoldable pub escaped : String → String
escaped String.[] = ""
escaped (String.◌∷◌ c s) = String.◌++◌ (escape_code c) (escaped s)

unfoldable pub exec_excerpt : String → String
unfolding first_of is_longer escaped
exec_excerpt out =
    let s = trim_space out in
    let shown = if is_longer 512 s then concat (first_of 512 s ∷ "..." ∷ []) else s in
    concat ("\"" ∷ escaped shown ∷ "\"" ∷ [])
