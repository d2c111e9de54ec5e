-- ===== src/Wire/Quote/Accepts.antt =====
-- What parseExecWireArgv answers to the wire form of an argv (runtime/ops.go).
use gc_runtime_nomad.Base.{
  ℕ, zero, suc, ◌<◌, ◌≤◌, Bool, true, false, some, List, [], ◌∷◌, ◌++◌, Bytes, ◌≡◌, inl, inr, refl,
  ap, ◌∙◌, length, ◌==◌, ==_iff, arith, append-nil, append_assoc, Bool-cases, Option-cases,
  length-append,
}
use gc_runtime_nomad.Wire.Quote.{
  quote, backslash, space, escape, shell_quote, split_at_quote, is_escaped_quote, read_word,
  next_word, parse_words, parse_exec_wire_argv,
}
use gc_runtime_nomad.Wire.Quote.Form.{wire_rest, wire, escape-quote, escape-plain}

-- Reading a word back.
read_word-plain :
    (f c : ℕ) (arg s : Bytes)
    → (c == quote) ≡ false
    → read_word (suc f) arg (c ∷ s) ≡ read_word (suc f) (arg ++ c ∷ []) s
unfolding read_word split_at_quote
read_word-plain f c arg s h = elim (Option-cases (split_at_quote s)) [
  | inl missing ↦ rw h (rw missing)
  | inr ((before, after), found) ↦ rw h (rw found (rw (append_assoc arg (c ∷ []) before)))
]

read_word-quote :
    (f : ℕ) (arg s : Bytes)
    → read_word (suc f) arg (quote ∷ backslash ∷ quote ∷ quote ∷ s)
      ≡ read_word f (arg ++ quote ∷ []) s
unfolding read_word split_at_quote is_escaped_quote
read_word-quote f arg s = rw (append-nil arg)

read_word-escape :
    (f : ℕ) (arg word rest : Bytes)
    → length word < f
    → is_escaped_quote rest ≡ false
    → read_word f arg (escape word ++ quote ∷ rest) ≡ some (arg ++ word, rest)
read_word-escape zero arg word rest h e = elim h [ ]
read_word-escape (suc f) arg [] rest h e = unfold escape read_word split_at_quote in rw e
read_word-escape (suc f) arg (c ∷ word) rest h e = elim (Bool-cases (c == quote)) [
  | inl same ↦ rw ((==_iff c quote).0 same) (
      rw (escape-quote word) (
        read_word-quote f arg (escape word ++ quote ∷ rest)
        ∙ read_word-escape f (arg ++ quote ∷ []) word rest (omega arith) e
        ∙ ap (λ a. some (a, rest)) (append_assoc arg (quote ∷ []) word)))
  | inr other ↦ rw (escape-plain c word other) (
      read_word-plain f c arg (escape word ++ quote ∷ rest) other
      ∙ read_word-escape (suc f) (arg ++ c ∷ []) word rest (omega arith) e
      ∙ ap (λ a. some (a, rest)) (append_assoc arg (c ∷ []) word))
]

length-escape : (word : Bytes) → length word ≤ length (escape word)
unfolding escape
length-escape [] = omega arith
length-escape (c ∷ word) = ground (arith, length-escape word)

length-wire_rest :
    (argv : List Bytes) (trailing : Bool) → length argv ≤ length (wire_rest argv trailing)
unfolding shell_quote
length-wire_rest [] trailing = omega arith
length-wire_rest (word ∷ argv) trailing = omega (
  arith,
  length-wire_rest argv trailing,
  length-append {0} (shell_quote word) (wire_rest argv trailing),
)

is_escaped_quote-space : (s : Bytes) → is_escaped_quote (space ∷ s) ≡ false
unfolding is_escaped_quote
is_escaped_quote-space [] = refl
is_escaped_quote-space (_ ∷ []) = refl
is_escaped_quote-space (_ ∷ _ ∷ _) = refl

wire_rest_head :
    (argv : List Bytes) (trailing : Bool) → is_escaped_quote (wire_rest argv trailing) ≡ false
unfolding is_escaped_quote
wire_rest_head [] false = refl
wire_rest_head [] true = refl
wire_rest_head (word ∷ argv) trailing =
    is_escaped_quote-space (shell_quote word ++ wire_rest argv trailing)

parse_words-cons :
    (f : ℕ) (argv : List Bytes) (word : Bytes) (more : List Bytes) (trailing : Bool)
    → parse_words (suc f) argv (wire (word ∷ more) trailing)
      ≡ next_word (parse_words f) (argv ++ word ∷ []) (wire_rest more trailing)
unfolding parse_words shell_quote
parse_words-cons f argv word more trailing =
    let rest = wire_rest more trailing in
    rw (append_assoc (escape word) (quote ∷ []) rest) (
      rw (
        read_word-escape (suc (length (escape word ++ quote ∷ rest))) [] word rest
          (omega (arith, length-escape word, length-append {0} (escape word) (quote ∷ rest)))
          (wire_rest_head more trailing)))

next_word-space :
    (f : ℕ) (argv : List Bytes) (s : Bytes)
    → next_word (parse_words f) argv (space ∷ s) ≡ parse_words f argv s
unfolding next_word
next_word-space f argv s = refl

next_word-wire_rest :
    (f : ℕ) (argv more : List Bytes) (trailing : Bool)
    → length more < f
    → next_word (parse_words f) argv (wire_rest more trailing) ≡ some (argv ++ more)
next_word-wire_rest zero argv more trailing h = elim h [ ]
next_word-wire_rest (suc f) argv [] false h = unfold next_word in rw (append-nil argv)
next_word-wire_rest (suc f) argv [] true h = unfold next_word parse_words in rw (append-nil argv)
next_word-wire_rest (suc f) argv (word ∷ more) trailing h =
    next_word-space (suc f) argv (wire (word ∷ more) trailing)
    ∙ parse_words-cons f argv word more trailing
    ∙ next_word-wire_rest f (argv ++ word ∷ []) more trailing (omega arith)
    ∙ ap some (append_assoc argv (word ∷ []) more)

length-wire :
    (word : Bytes) (argv : List Bytes) (trailing : Bool)
    → length argv < length (wire (word ∷ argv) trailing)
unfolding shell_quote
length-wire word argv trailing = omega (
  arith,
  length-wire_rest argv trailing,
  length-append {0} (shell_quote word) (wire_rest argv trailing),
)

pub wire_complete :
    (argv : List Bytes) (trailing : Bool) → parse_exec_wire_argv (wire argv trailing) ≡ some argv
unfolding parse_exec_wire_argv
wire_complete [] trailing = refl
wire_complete (word ∷ argv) trailing =
    let command = wire (word ∷ argv) trailing in
    parse_words-cons (length command) [] word argv trailing
    ∙ next_word-wire_rest (length command) (word ∷ []) argv trailing
        (length-wire word argv trailing)
