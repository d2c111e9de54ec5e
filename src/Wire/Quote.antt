-- ===== src/Wire/Quote.antt =====
-- runtime/staging.go (shellQuote) and runtime/ops.go (parseExecWireArgv): the argv that gc sends as
-- single-quoted words, one space apart. A Go string is its bytes.
pub mod Form
pub mod Accepts
pub mod Sound
pub mod RoundTrip
use gc_runtime_nomad.Base.{
  ℕ, zero, suc, ◌+◌, Bool, true, false, ◌&&◌, ◌||◌, not, Option, none, some, List, [], ◌∷◌, ◌++◌,
  Bytes, ◌≡◌, refl, length, drop, ◌==◌, if◌then◌else◌,
}

abbrev pub quote : ℕ
quote = 39

abbrev pub backslash : ℕ
backslash = 92

abbrev pub space : ℕ
space = 32

infixl 5 ◌>>=◌
abbrev pub ◌>>=◌ {ℓ κ} : {A : Type ℓ} {B : Type κ} → Option A → (A → Option B) → Option B
none >>= k = none
some a >>= k = k a

-- `strings.ReplaceAll(value, "'", "'\\''")`
unfoldable pub escape : Bytes → Bytes
escape [] = []
escape (c ∷ value) =
    if c == quote then quote ∷ backslash ∷ quote ∷ quote ∷ escape value else c ∷ escape value

unfoldable pub shell_quote : Bytes → Bytes
unfolding escape
shell_quote value = quote ∷ (escape value ++ quote ∷ [])

-- The bytes before the first quote and those after it: `strings.IndexByte` and the two slices.
pub split_at_quote : Bytes → Option (Bytes × Bytes)
split_at_quote [] = none
split_at_quote (c ∷ command) =
    if c == quote
    then some ([], command)
    else do (before, after) ← split_at_quote command; some (c ∷ before, after)

-- `strings.HasPrefix(command, "\\''")`
pub is_escaped_quote : Bytes → Bool
is_escaped_quote (a ∷ b ∷ c ∷ _) = a == backslash && b == quote && c == quote
is_escaped_quote _ = false

-- The inner loop, after the opening quote: the word, and what follows its closing quote.
pub read_word : ℕ → Bytes → Bytes → Option (Bytes × Bytes)
read_word zero arg command = none
read_word (suc fuel) arg command = do
  (before, after) ← split_at_quote command
  let again = read_word fuel ((arg ++ before) ++ quote ∷ []) (drop 3 after)
  if is_escaped_quote after then again else some (arg ++ before, after)

-- After a word: the end of the command, or a space and the next word.
pub next_word :
    (List Bytes → Bytes → Option (List Bytes)) → List Bytes → Bytes → Option (List Bytes)
next_word parse argv [] = some argv
next_word parse argv (c ∷ command) = if c == space then parse argv command else none

-- The outer loop.
pub parse_words : ℕ → List Bytes → Bytes → Option (List Bytes)
parse_words zero argv command = none
parse_words (suc fuel) argv [] = some argv
parse_words (suc fuel) argv (c ∷ command) = elim (c == quote) [
  | false ↦ none
  | true ↦ read_word (suc (length command)) [] command >>= λ (arg, rest).
      next_word (parse_words fuel) (argv ++ arg ∷ []) rest
]

-- Each round consumes a byte, so one more than the length is fuel enough.
unfoldable pub parse_exec_wire_argv : Bytes → Option (List Bytes)
unfolding parse_words next_word read_word is_escaped_quote split_at_quote
parse_exec_wire_argv command = parse_words (suc (length command)) [] command
