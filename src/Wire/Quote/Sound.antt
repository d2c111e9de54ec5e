-- ===== src/Wire/Quote/Sound.antt =====
-- What a command that parseExecWireArgv accepts looks like (runtime/ops.go).
use gc_runtime_nomad.Base.{
  ℕ, zero, suc, Bool, true, false, Option, some, List, [], ◌∷◌, ◌++◌, Bytes, ◌≡◌, ◌⊎◌, inl, inr,
  refl, sym, ap, ◌∙◌, length, drop, ◌==◌, ==_iff, arith, append-nil, append_assoc, Bool-cases,
  Option-cases,
}
use gc_runtime_nomad.Wire.Quote.{
  quote, backslash, space, escape, shell_quote, split_at_quote, is_escaped_quote, read_word,
  next_word, parse_words,
}
use gc_runtime_nomad.Wire.Quote.Form.{escape-quote, wire_rest, wire}

-- The other way: what a successful parse says of the command.
split_at_quote_sound :
    (s before after : Bytes)
    → split_at_quote s ≡ some (before, after)
    → (escape before ≡ before) × (s ≡ before ++ quote ∷ after)
unfolding split_at_quote escape
split_at_quote_sound [] before after e = cc
split_at_quote_sound (c ∷ s) before after e = elim (Bool-cases (c == quote)) [
  | inl same ↦ ground (arith, (==_iff c quote).0 same)
  | inr other ↦ elim (Option-cases (split_at_quote s)) [
    | inl missing ↦ ground arith
    | inr ((b, a), found) ↦ ground (arith, split_at_quote_sound s b a found)
  ]
]

escape-append : (a b : Bytes) → escape (a ++ b) ≡ escape a ++ escape b
unfolding escape
escape-append [] b = refl
escape-append (c ∷ a) b = ground (arith, escape-append a b)

is_escaped_quote_sound :
    (s : Bytes) → is_escaped_quote s ≡ true → s ≡ backslash ∷ quote ∷ quote ∷ drop 3 s
unfolding is_escaped_quote
is_escaped_quote_sound (a ∷ b ∷ c ∷ s) e = ground arith
is_escaped_quote_sound _ e = cc

read_word_cases :
    (f : ℕ) (arg s r rest : Bytes)
    → read_word (suc f) arg s ≡ some (r, rest)
    → (before : Bytes) × (after : Bytes) × (split_at_quote s ≡ some (before, after))
      × (((r ≡ arg ++ before) × (rest ≡ after))
          ⊎ ((is_escaped_quote after ≡ true)
              × (read_word f ((arg ++ before) ++ quote ∷ []) (drop 3 after) ≡ some (r, rest))))
unfolding read_word
read_word_cases f arg s r rest e = elim (Option-cases (split_at_quote s)) [
  | inl missing ↦ absurd (cc (rw missing at e))
  | inr ((before, after), found) ↦ elim (Bool-cases (is_escaped_quote after)) [
    | inl more ↦ (before, after, found, inr (more, ground arith))
    | inr last ↦ (before, after, found, inl (ground arith, ground arith))
  ]
]

word_append :
    (arg before word rest after : Bytes)
    → escape before ≡ before
    → after ≡ backslash ∷ quote ∷ quote ∷ (escape word ++ quote ∷ rest)
    → (((arg ++ before) ++ quote ∷ []) ++ word ≡ arg ++ (before ++ quote ∷ word))
      × (before ++ quote ∷ after ≡ escape (before ++ quote ∷ word) ++ quote ∷ rest)
word_append arg before word rest after plain e = (
  simp append_assoc,
  rw (escape-append before (quote ∷ word)) (rw (plain, escape-quote word, e) (simp append_assoc)),
)

read_word_sound :
    (f : ℕ) (arg s r rest : Bytes)
    → read_word f arg s ≡ some (r, rest)
    → (word : Bytes) × (r ≡ arg ++ word) × (s ≡ escape word ++ quote ∷ rest)
read_word_sound zero arg s r rest e = unfold read_word in cc
read_word_sound (suc f) arg s r rest e =
    let (before, after, found, how) = read_word_cases f arg s r rest e in
    let (plain, parts) = split_at_quote_sound s before after found in
    elim how [
      | inl (same, end) ↦ (before, same, parts ∙ cc)
      | inr (more, again) ↦
          let (word, r_eq, after_eq) =
            read_word_sound f ((arg ++ before) ++ quote ∷ []) (drop 3 after) r rest again in
          let (left, right) = word_append arg before word rest after plain (
            is_escaped_quote_sound after more ∙ ap (λ t. backslash ∷ quote ∷ quote ∷ t) after_eq) in
          (before ++ quote ∷ word, r_eq ∙ left, parts ∙ right)
    ]

-- What the loop has read, and what it reads next.
abbrev Parsed : List Bytes → Bytes → List Bytes → Type 0
Parsed argv s r =
    (more : List Bytes) × (trailing : Bool) × (r ≡ argv ++ more) × (s ≡ wire more trailing)

-- The same behind a word.
abbrev ParsedRest : List Bytes → Bytes → List Bytes → Type 0
ParsedRest argv s r =
    (more : List Bytes) × (trailing : Bool) × (r ≡ argv ++ more) × (s ≡ wire_rest more trailing)

Parsed-space :
    (c : ℕ) (argv : List Bytes) (s : Bytes) (r : List Bytes)
    → c ≡ space
    → Parsed argv s r
    → ParsedRest argv (c ∷ s) r
Parsed-space c argv s r same ([], trailing, r_eq, s_eq) = ([], true, r_eq, cc)
Parsed-space c argv s r same (word ∷ more, trailing, r_eq, s_eq) = (word ∷ more, trailing, r_eq, cc)

next_word_sound :
    (parse : List Bytes → Bytes → Option (List Bytes)) (argv : List Bytes) (s : Bytes)
    (r : List Bytes)
    → ((t : Bytes) → parse argv t ≡ some r → Parsed argv t r)
    → next_word parse argv s ≡ some r
    → ParsedRest argv s r
unfolding next_word
next_word_sound parse argv [] r ih e = ([], false, ground (arith, append-nil argv), refl)
next_word_sound parse argv (c ∷ s) r ih e = elim (Bool-cases (c == space)) [
  | inl same ↦ Parsed-space c argv s r ((==_iff c space).0 same) (ih s (ground arith))
  | inr other ↦ absurd (ground arith)
]

parse_words_cases :
    (f c : ℕ) (argv : List Bytes) (s : Bytes) (r : List Bytes)
    → parse_words (suc f) argv (c ∷ s) ≡ some r
    → (word : Bytes) × (rest : Bytes) × (c ≡ quote)
      × (read_word (suc (length s)) [] s ≡ some (word, rest))
      × (next_word (parse_words f) (argv ++ word ∷ []) rest ≡ some r)
unfolding parse_words
parse_words_cases f c argv s r e = elim (Bool-cases (c == quote)) [
  | inr other ↦ absurd (ground arith)
  | inl same ↦ elim (Option-cases (read_word (suc (length s)) [] s)) [
    | inl missing ↦ absurd (ground arith)
    | inr ((word, rest), found) ↦ (word, rest, (==_iff c quote).0 same, found, ground arith)
  ]
]

wire-cons :
    (c : ℕ) (s word rest : Bytes) (more : List Bytes) (trailing : Bool)
    → c ≡ quote
    → s ≡ escape word ++ quote ∷ rest
    → rest ≡ wire_rest more trailing
    → c ∷ s ≡ wire (word ∷ more) trailing
unfolding shell_quote
wire-cons c s word rest more trailing same s_eq rest_eq =
    rw (append_assoc (escape word) (quote ∷ []) (wire_rest more trailing)) (cc)

pub parse_words_sound :
    (f : ℕ) (argv : List Bytes) (s : Bytes) (r : List Bytes)
    → parse_words f argv s ≡ some r
    → Parsed argv s r
parse_words_sound zero argv s r e = unfold parse_words in absurd (cc e)
parse_words_sound (suc f) argv [] r e =
    unfold parse_words in ([], false, ground (arith, append-nil argv), refl)
parse_words_sound (suc f) argv (c ∷ s) r e =
    let (word, rest, same, found, again) = parse_words_cases f c argv s r e in
    let (word', word_eq, s_eq) = read_word_sound (suc (length s)) [] s word rest found in
    let (more, trailing, r_eq, rest_eq) =
      next_word_sound (parse_words f) (argv ++ word ∷ []) rest r
        (λ t h. parse_words_sound f (argv ++ word ∷ []) t r h) again in
    (
      word ∷ more,
      trailing,
      r_eq ∙ append_assoc argv (word ∷ []) more,
      wire-cons c s word rest more trailing same
          (s_eq ∙ ap (λ w. escape w ++ quote ∷ rest) (sym word_eq)) rest_eq,
    )
