-- ===== src/Wire/Texts/Laws.antt =====
-- runtime/ops.go: an argv behind its wire form (separableTransportLaunch).
use text.Mathlib.TextEquality.{eq_iff}
use gc_runtime_nomad.Base.{
  Bool, false, true, not, ◌&&◌, ◌||◌, Option, none, some, List, [], ◌∷◌, String, Bytes, ◌≡◌, ◌↔◌,
  ◌⊎◌, inl, inr, refl, sym, ap, subst, ◌∙◌, str_eq, arith, Bool-cases, if◌then◌else◌,
}
use gc_runtime_nomad.Wire.Quote.{parse_exec_wire_argv}
use gc_runtime_nomad.Wire.Quote.Form.{wire}
use gc_runtime_nomad.Wire.Quote.RoundTrip.{parse_exec_wire_argv-wire_iff}
use gc_runtime_nomad.Wire.Texts.{
  codes, texts_of, wire_argv, is_launch_verb, unwrap, canonical, separable_transport_launch,
}

-- The two argv forms with which gc starts an agent's pane.
abbrev pub IsLaunch : List String → Type 0
IsLaunch argv =
    (pane : String) × (pane ≡ "" → ⊥)
    × ((argv ≡ "tmux" ∷ "new-session" ∷ "-d" ∷ "-s" ∷ "main" ∷ pane ∷ [])
        ⊎ (argv ≡ "tmux" ∷ "respawn-pane" ∷ "-k" ∷ "-t" ∷ "main" ∷ pane ∷ []))

-- The command hands the shell a line that quotes the argv, each word as `shellQuote` writes it.
abbrev pub IsWired : List String → List String → Type 0
IsWired command argv =
    (line : String) × (words : List Bytes) × (trailing : Bool) × (command
      ≡ "/bin/sh" ∷ "-c" ∷ line ∷ [])
    × (codes line ≡ wire words trailing)
    × (texts_of words ≡ argv)

guarded :
    {A : Type 0} (t : Bool) (x out : A)
    → (if t then some x else none) ≡ some out
    → (t ≡ true) × (x ≡ out)
guarded true x out p = (refl, ground arith)
guarded false x out p = absurd (cc p)

same_text : (s t : String) → str_eq s t ≡ true → s ≡ t
same_text s t p = (eq_iff s t).0 p

and_split : (a b : Bool) → (a && b) ≡ true → (a ≡ true) × (b ≡ true)
and_split true b p = (refl, p)
and_split false b p = absurd (cc p)

not_empty : (s : String) → not (str_eq s "") ≡ true → s ≡ "" → ⊥
not_empty s p q = absurd (cc (sym p ∙ ap (λ u. not (str_eq u "")) q))

six :
    {a a' b b' c c' d d' e e' : String} (pane : String)
    → a ≡ a'
    → b ≡ b'
    → c ≡ c'
    → d ≡ d'
    → e ≡ e'
    → a ∷ b ∷ c ∷ d ∷ e ∷ pane ∷ [] ≡ a' ∷ b' ∷ c' ∷ d' ∷ e' ∷ pane ∷ []
six pane p q r s t i = p i ∷ q i ∷ r i ∷ s i ∷ t i ∷ pane ∷ []

or_split : (a b : Bool) → (a || b) ≡ true → (a ≡ true) ⊎ (b ≡ true)
or_split true b p = inl refl
or_split false b p = inr p

three :
    (s t u : String) (a b c : String)
    → (str_eq s a && str_eq t b && str_eq u c) ≡ true
    → (s ≡ a) × (t ≡ b) × (u ≡ c)
three s t u a b c h =
    let (rest, r) = and_split _ _ h in
    let (p, q) = and_split _ _ rest in (same_text s a p, same_text t b q, same_text u c r)

is_launch_verb-IsLaunch :
    (program verb flag target name pane : String)
    → (str_eq program "tmux"
        && str_eq name "main"
        && not (str_eq pane "")
        && is_launch_verb verb flag target)
      ≡ true
    → IsLaunch (program ∷ verb ∷ flag ∷ target ∷ name ∷ pane ∷ [])
is_launch_verb-IsLaunch program verb flag target name pane h =
    let (h₂, h₃) = and_split _ _ h in
    let (h₁, r) = and_split _ _ h₂ in
    let (p, q) = and_split _ _ h₁ in
    let m = same_text name "main" q in
    let t = same_text program "tmux" p in
    (
      pane,
      not_empty pane r,
      elim (or_split _ _ h₃) [
        | inl a ↦ (let (v, f, g) = three _ _ _ _ _ _ a in inl (six pane t v f g m))
        | inr b ↦ (let (v, f, g) = three _ _ _ _ _ _ b in inr (six pane t v f g m))
      ],
    )

canonical-IsLaunch :
    (command argv : List String) → canonical command ≡ some argv → (command ≡ argv) × IsLaunch argv
unfolding canonical
canonical-IsLaunch [] argv p = absurd (cc p)
canonical-IsLaunch (a ∷ []) argv p = absurd (cc p)
canonical-IsLaunch (a ∷ b ∷ []) argv p = absurd (cc p)
canonical-IsLaunch (a ∷ b ∷ c ∷ []) argv p = absurd (cc p)
canonical-IsLaunch (a ∷ b ∷ c ∷ d ∷ []) argv p = absurd (cc p)
canonical-IsLaunch (a ∷ b ∷ c ∷ d ∷ e ∷ []) argv p = absurd (cc p)
canonical-IsLaunch (a ∷ b ∷ c ∷ d ∷ e ∷ f ∷ []) argv p =
    let (h, same) = guarded _ _ _ p in
    (same, subst IsLaunch same (is_launch_verb-IsLaunch a b c d e f h))
canonical-IsLaunch (a ∷ b ∷ c ∷ d ∷ e ∷ f ∷ g ∷ rest) argv p = absurd (cc p)

empty_no : (s : String) → (s ≡ "" → ⊥) → str_eq s "" ≡ false
empty_no s full = elim (Bool-cases (str_eq s "")) [
  | inl same ↦ absurd (full (same_text s "" same))
  | inr other ↦ other
]

IsLaunch-canonical :
    (argv : List String) → IsLaunch argv → separable_transport_launch argv ≡ some argv
unfolding separable_transport_launch canonical unwrap
IsLaunch-canonical argv (pane, full, inl form) = rw form (rw (empty_no pane full) refl)
IsLaunch-canonical argv (pane, full, inr form) = rw form (rw (empty_no pane full) refl)

two :
    {a b : String} (c : String)
    → a ≡ "/bin/sh"
    → b ≡ "-c"
    → a ∷ b ∷ c ∷ [] ≡ "/bin/sh" ∷ "-c" ∷ c ∷ []
two c p q i = p i ∷ q i ∷ c ∷ []

wire_argv-words :
    (line : String) (argv : List String)
    → wire_argv line ≡ some argv
    → (words : List Bytes) × (parse_exec_wire_argv (codes line) ≡ some words)
      × (texts_of words ≡ argv)
unfolding wire_argv
wire_argv-words line argv p = read (parse_exec_wire_argv (codes line)) refl p
  where
    read :
        (o : Option (List Bytes))
        → parse_exec_wire_argv (codes line) ≡ o
        → elim o as (λ _. Option (List String)) [ none ↦ none | some words ↦ some (texts_of words) ]
          ≡ some argv
        → (words : List Bytes) × (parse_exec_wire_argv (codes line) ≡ some words)
          × (texts_of words ≡ argv)
    read none same q = absurd (cc q)
    read (some words) same q = (words, same, ground arith)

words-wire_argv :
    (line : String) (words : List Bytes)
    → parse_exec_wire_argv (codes line) ≡ some words
    → wire_argv line ≡ some (texts_of words)
unfolding wire_argv
words-wire_argv line words p =
    ap
      (λ o. elim o as (λ _. Option (List String)) [
        | none ↦ none
        | some found ↦ some (texts_of found)
      ])
      p

unwrap-IsWired :
    (command argv : List String)
    → unwrap command ≡ some argv
    → (command ≡ argv) ⊎ IsWired command argv
unfolding unwrap
unwrap-IsWired [] argv p = inl (ground arith)
unwrap-IsWired (a ∷ []) argv p = inl (ground arith)
unwrap-IsWired (a ∷ b ∷ []) argv p = inl (ground arith)
unwrap-IsWired (a ∷ b ∷ c ∷ []) argv p = shelled (str_eq a "/bin/sh" && str_eq b "-c") refl p
  where
    shelled :
        (t : Bool)
        → (str_eq a "/bin/sh" && str_eq b "-c") ≡ t
        → (if t then wire_argv c else some (a ∷ b ∷ c ∷ [])) ≡ some argv
        → (a ∷ b ∷ c ∷ [] ≡ argv) ⊎ IsWired (a ∷ b ∷ c ∷ []) argv
    shelled true h q =
        let (sh, flag) = and_split _ _ h in
        let (words, parsed, texts) = wire_argv-words c argv q in
        let (trailing, form) = (parse_exec_wire_argv-wire_iff (codes c) words).0 parsed in
        inr (c, words, trailing, two c (same_text a _ sh) (same_text b _ flag), form, texts)
    shelled false h q = inl (ground arith)
unwrap-IsWired (a ∷ b ∷ c ∷ d ∷ rest) argv p = inl (ground arith)

-- What the recogniser answers of a line is what it answers of the line's words.
wired :
    (line : String) (words : List Bytes) (trailing : Bool)
    → codes line ≡ wire words trailing
    → separable_transport_launch ("/bin/sh" ∷ "-c" ∷ line ∷ []) ≡ canonical (texts_of words)
unfolding separable_transport_launch unwrap
wired line words trailing form =
    ap (λ o. elim o as (λ _. Option (List String)) [ none ↦ none | some argv ↦ canonical argv ])
      (words-wire_argv line words
        ((parse_exec_wire_argv-wire_iff (codes line) words).1 (trailing, form)))

recognised_parts :
    (command argv : List String) (o : Option (List String))
    → unwrap command ≡ o
    → elim o as (λ _. Option (List String)) [ none ↦ none | some words ↦ canonical words ]
      ≡ some argv
    → IsLaunch argv × ((command ≡ argv) ⊎ IsWired command argv)
recognised_parts command argv none u p = absurd (cc p)
recognised_parts command argv (some words) u p =
    let (same, launch) = canonical-IsLaunch words argv p in
    (launch, unwrap-IsWired command argv (u ∙ ap some same))

recognised :
    (command argv : List String)
    → separable_transport_launch command ≡ some argv
    → IsLaunch argv × ((command ≡ argv) ⊎ IsWired command argv)
unfolding separable_transport_launch
recognised command argv p = recognised_parts command argv (unwrap command) refl p

IsLaunch-canonical_argv : (argv : List String) → IsLaunch argv → canonical argv ≡ some argv
unfolding separable_transport_launch canonical unwrap
IsLaunch-canonical_argv argv (pane, full, inl form) = rw form (rw (empty_no pane full) refl)
IsLaunch-canonical_argv argv (pane, full, inr form) = rw form (rw (empty_no pane full) refl)

recognises :
    (command argv : List String)
    → IsLaunch argv
    → (command ≡ argv) ⊎ IsWired command argv
    → separable_transport_launch command ≡ some argv
recognises command argv launch (inl same) = rw same (IsLaunch-canonical argv launch)
recognises command argv launch (inr (line, words, trailing, shell, form, texts)) =
    ap separable_transport_launch shell
    ∙ wired line words trailing form
    ∙ ap canonical texts
    ∙ IsLaunch-canonical_argv argv launch

-- An exec is taken for the launch of an agent's pane if and only if it is one of the two tmux
-- commands for the window `main` with a pane command that is not empty, or `/bin/sh -c` with a line
-- whose words, each as `shellQuote` writes it and one space apart, are such a command. The answer is
-- that tmux command.
pub separable_transport_launch-IsLaunch_iff :
    (command argv : List String)
    → (separable_transport_launch command ≡ some argv)
      ↔ (IsLaunch argv × ((command ≡ argv) ⊎ IsWired command argv))
separable_transport_launch-IsLaunch_iff command argv =
    (recognised command argv, λ (launch, from). recognises command argv launch from)
