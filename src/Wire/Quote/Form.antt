-- ===== src/Wire/Quote/Form.antt =====
-- The wire form of an argv, stated on its own (runtime/staging.go, shellQuote).
use gc_runtime_nomad.Base.{ℕ, Bool, true, false, List, [], ◌∷◌, ◌++◌, Bytes, ◌≡◌, refl, ◌==◌}
use gc_runtime_nomad.Wire.Quote.{quote, backslash, space, escape, shell_quote}

-- What follows the first word: each further word behind one space, and perhaps a last space.
abbrev pub wire_rest : List Bytes → Bool → Bytes
wire_rest [] false = []
wire_rest [] true = space ∷ []
wire_rest (word ∷ argv) trailing = space ∷ (shell_quote word ++ wire_rest argv trailing)

-- The argv as quoted words one space apart; `trailing` puts one space behind the last word.
abbrev pub wire : List Bytes → Bool → Bytes
wire [] trailing = []
wire (word ∷ argv) trailing = shell_quote word ++ wire_rest argv trailing

pub escape-quote :
    (word : Bytes) → escape (quote ∷ word) ≡ quote ∷ backslash ∷ quote ∷ quote ∷ escape word
unfolding escape
escape-quote word = refl

pub escape-plain :
    (c : ℕ) (word : Bytes) → (c == quote) ≡ false → escape (c ∷ word) ≡ c ∷ escape word
unfolding escape
escape-plain c word h = rw h
