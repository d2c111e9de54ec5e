-- ===== src/Wire/Texts.antt =====
-- runtime/ops.go: the argv of an exec as texts (separableTransportLaunch, parseExecWireArgv). The
-- grammar's own characters are ASCII, so that it reads code points as it reads bytes.
pub mod Laws
use Prim.Native.Char.{Char, char, code, IsLt, nul}
use Prim.Native.Nat.{Ordering, compare}
use Prim.Native.String
use gc_runtime_nomad.Base.{
  ℕ, Bool, true, false, not, ◌&&◌, ◌||◌, Option, none, some, List, [], ◌∷◌, String, Bytes, str_eq,
  if◌then◌else◌,
}
use gc_runtime_nomad.Wire.Quote.{parse_exec_wire_argv}

-- The characters of a text by their numbers.
unfoldable pub codes : String → Bytes
codes String.[] = []
codes (String.◌∷◌ c s) = code c ∷ codes s

abbrev pub IsBelow : Ordering → Ordering → Type 0
IsBelow Ordering.lt o = IsLt o
IsBelow Ordering.eq o = ⊥
IsBelow Ordering.gt o = ⊥

-- The built-in condition on a character's number, by its three comparisons.
abbrev pub IsNumber : Ordering → Ordering → Ordering → Type 0
IsNumber Ordering.lt p q = Unit
IsNumber Ordering.eq p q = IsBelow p q
IsNumber Ordering.gt p q = IsBelow p q

abbrev pub make_below : (p q : Ordering) → (IsBelow p q → Char) → Char
make_below Ordering.lt Ordering.lt make = make tt
make_below Ordering.lt Ordering.eq make = nul
make_below Ordering.lt Ordering.gt make = nul
make_below Ordering.eq q make = nul
make_below Ordering.gt q make = nul

abbrev pub make_number : (o p q : Ordering) → (IsNumber o p q → Char) → Char
make_number Ordering.lt p q make = make tt
make_number Ordering.eq p q make = make_below p q make
make_number Ordering.gt p q make = make_below p q make

-- The character with a number; NUL where there is none.
unfoldable pub char_of : ℕ → Char
char_of n = make_number (compare n 55296) (compare 57343 n) (compare n 1114112) (char n)

unfoldable pub text_of : Bytes → String
text_of [] = ""
text_of (n ∷ numbers) = String.◌∷◌ (char_of n) (text_of numbers)

unfoldable pub texts_of : List Bytes → List String
texts_of [] = []
texts_of (word ∷ words) = text_of word ∷ texts_of words

unfoldable pub wire_argv : String → Option (List String)
unfolding codes texts_of text_of char_of
wire_argv command = elim (parse_exec_wire_argv (codes command)) [
  | none ↦ none
  | some words ↦ some (texts_of words)
]

-- The argv behind `/bin/sh -c`, or the argv as it is.
unfoldable pub unwrap : List String → Option (List String)
unwrap (shell ∷ flag ∷ command ∷ []) =
    if str_eq shell "/bin/sh" && str_eq flag "-c"
    then wire_argv command
    else some (shell ∷ flag ∷ command ∷ [])
unwrap command = some command

abbrev pub is_launch_verb : String → String → String → Bool
is_launch_verb verb flag target =
    (str_eq verb "new-session" && str_eq flag "-d" && str_eq target "-s")
    || (str_eq verb "respawn-pane" && str_eq flag "-k" && str_eq target "-t")

-- The two tmux forms.
unfoldable pub canonical : List String → Option (List String)
canonical (program ∷ verb ∷ flag ∷ target ∷ name ∷ pane ∷ []) =
    if str_eq program "tmux"
      && str_eq name "main"
      && not (str_eq pane "")
      && is_launch_verb verb flag target
    then some (program ∷ verb ∷ flag ∷ target ∷ name ∷ pane ∷ [])
    else none
canonical command = none

unfoldable pub separable_transport_launch : List String → Option (List String)
unfolding unwrap canonical
separable_transport_launch command = elim (unwrap command) [
  | none ↦ none
  | some argv ↦ canonical argv
]
