-- ===== src/Staging/StagePath/Clean.antt =====
-- What filepath.Clean makes of a relative path's parts (runtime/staging.go, validateStagePath).
use gc_runtime_nomad.Base.{
  ℕ, zero, suc, Bool, true, false, not, ◌||◌, List, [], ◌∷◌, String, ◌≡◌, refl, All, length, arith,
  Bool-cases, inl, inr, if◌then◌else◌,
}
use gc_runtime_nomad.Staging.StagePath.{
  is_codes, is_empty, is_dot, is_up, climb, clean_step, clean_parts,
}

-- Along the parts, starting `depth` directories below the root, no part goes above the root.
abbrev pub stays_below : ℕ → List String → Bool
stays_below depth [] = true
stays_below depth (p ∷ parts) =
    let here = stays_below depth parts in
    let down = stays_below (suc depth) parts in
    let up : Bool = elim depth [ zero ↦ false | suc above ↦ stays_below above parts ] in
    if is_empty p || is_dot p then here else if is_up p then up else down

-- The first part of the path that a stack stands for is "..".
abbrev pub bottom_up : List String → Bool
bottom_up [] = false
bottom_up (p ∷ []) = is_up p
bottom_up (p ∷ q ∷ stack) = bottom_up (q ∷ stack)

abbrev pub IsPlain : String → Type 0
IsPlain p = is_up p ≡ false

bottom-plain : (stack : List String) → All IsPlain stack → bottom_up stack ≡ false
bottom-plain [] h = refl
bottom-plain (p ∷ []) h = h.0
bottom-plain (p ∷ q ∷ stack) h = bottom-plain (q ∷ stack) h.1

bottom-push :
    (p : String) (stack : List String) → bottom_up stack ≡ true → bottom_up (p ∷ stack) ≡ true
bottom-push p [] h = cc
bottom-push p (q ∷ stack) h = h

bottom-climb : (stack : List String) → bottom_up stack ≡ true → bottom_up (climb stack) ≡ true
unfolding climb
bottom-climb [] h = cc
bottom-climb (p ∷ []) h = rw h h
bottom-climb (p ∷ q ∷ stack) h = elim (Bool-cases (is_up p)) [
  | inl up ↦ rw up h
  | inr plain ↦ rw plain h
]

bottom-step :
    (p : String) (stack : List String)
    → bottom_up stack ≡ true
    → bottom_up (clean_step p stack) ≡ true
unfolding clean_step
bottom-step p stack h = ground (arith, bottom-climb stack h, bottom-push p stack h)

bottom-parts :
    (stack parts : List String)
    → bottom_up stack ≡ true
    → bottom_up (clean_parts stack parts) ≡ true
unfolding clean_parts
bottom-parts stack [] h = h
bottom-parts stack (p ∷ parts) h = bottom-parts (clean_step p stack) parts (bottom-step p stack h)

-- From plain parts that lie `length stack` below the root.
pub stays-parts :
    (stack parts : List String)
    → All IsPlain stack
    → bottom_up (clean_parts stack parts) ≡ not (stays_below (length stack) parts)
unfolding clean_parts clean_step climb is_up is_codes
stays-parts stack [] h = bottom-plain stack h
stays-parts [] (p ∷ parts) h = elim (Bool-cases (is_empty p || is_dot p)) [
  | inl skip ↦ rw skip (stays-parts [] parts h)
  | inr named ↦ elim (Bool-cases (is_up p)) [
    | inl up ↦ rw (named, up) (bottom-parts (".." ∷ []) parts above_root)
    | inr plain ↦ rw (named, plain) (stays-parts (p ∷ []) parts (plain, h))
  ]
]
  where
    above_root : bottom_up (".." ∷ []) ≡ true
    above_root = refl
stays-parts (q ∷ stack) (p ∷ parts) h = elim (Bool-cases (is_empty p || is_dot p)) [
  | inl skip ↦ rw skip (stays-parts (q ∷ stack) parts h)
  | inr named ↦ elim (Bool-cases (is_up p)) [
    | inl up ↦ rw (named, up) (rw (h.0) (stays-parts stack parts h.1))
    | inr plain ↦ rw (named, plain) (stays-parts (p ∷ q ∷ stack) parts (plain, h))
  ]
]
