-- ===== src/Base/Text.antt =====
-- Go's `strings` functions on texts, over code points.
use Prim.Native.Char.{code}
use Prim.Native.String
use Prim.Native.String.{String}
use text.Mathlib.Text.{starts_with, is_le, ◌==◌ as str_eq}
use Prim.Native.Nat.{ℕ, zero, suc, ◌+◌, ◌-◌, ◌*◌, ◌/◌, ◌%◌, ◌^◌}
use mathlib.Core.Option.{Option, none, some}
use mathlib.Core.List.{List, [], ◌∷◌, ◌++◌}
use mathlib.Core.Bool.{Bool, true, false, ◌||◌, ◌&&◌}
use mathlib.Core.Logic.{inl, inr}
use gc_runtime_nomad.Base.Lists.{All, In}
use gc_runtime_nomad.Base.Tests.{leb, ltb, ◌==◌, Bool-cases, if◌then◌else◌}

-- `unicode.IsSpace`
unfoldable pub is_space : ℕ → Bool
is_space c =
    (leb 9 c && leb c 13)
    || c == 0x20
    || c == 0x85
    || c == 0xa0
    || c == 0x1680
    || (leb 0x2000 c && leb c 0x200a)
    || c == 0x2028
    || c == 0x2029
    || c == 0x202f
    || c == 0x205f
    || c == 0x3000

is_blank : String → Bool
unfolding is_space
is_blank String.[] = true
is_blank (String.◌∷◌ c s) = is_space (code c) && is_blank s

trim_left : String → String
trim_left String.[] = ""
trim_left (String.◌∷◌ c s) =
    let rest = trim_left s in if is_space (code c) then rest else String.◌∷◌ c s

trim_right : String → String
trim_right String.[] = ""
trim_right (String.◌∷◌ c s) = if is_blank (String.◌∷◌ c s) then "" else String.◌∷◌ c (trim_right s)

-- `strings.TrimSpace`
unfoldable pub trim_space : String → String
unfolding trim_left trim_right is_blank is_space
trim_space s = trim_right (trim_left s)

-- `strings.Contains`
unfoldable pub contains : String → String → Bool
contains String.[] part = starts_with "" part
contains (String.◌∷◌ c s) part = starts_with (String.◌∷◌ c s) part || contains s part

-- `strings.Split(s, sep)` at a one-byte separator.
split_from : ℕ → String → List String → String → List String
split_from sep cur parts String.[] = parts ++ cur ∷ []
split_from sep cur parts (String.◌∷◌ c s) =
    let closed = split_from sep "" (parts ++ cur ∷ []) s in
    let longer = split_from sep (String.◌++◌ cur (String.◌∷◌ c String.[])) parts s in
    if code c == sep then closed else longer

unfoldable pub split : ℕ → String → List String
unfolding split_from
split sep s = split_from sep "" [] s

-- The text without the slashes at its end.
trim_slashes : String → String
trim_slashes String.[] = ""
trim_slashes (String.◌∷◌ c s) =
    let rest = trim_slashes s in if code c == 0x2f && str_eq rest "" then "" else String.◌∷◌ c rest

last_part : String → List String → String
last_part part [] = part
last_part part (p ∷ parts) = last_part p parts

-- `filepath.Base`
unfoldable pub base : String → String
unfolding split trim_slashes last_part
base path =
    if str_eq path ""
    then "."
    else if str_eq (trim_slashes path) ""
    then "/"
    else last_part "" (split 0x2f (trim_slashes path))

digits_from : ℕ → String → Option ℕ
digits_from n String.[] = some n
digits_from n (String.◌∷◌ c s) =
    let rest = digits_from (n * 10 + (code c - 48)) s in
    if leb 48 (code c) && leb (code c) 57 then rest else none

-- `strconv.Atoi` of a number that is not negative; none is its error.
unfoldable pub atoi : String → Option ℕ
unfolding digits_from
atoi String.[] = none
atoi (String.◌∷◌ c s) =
    if code c == 43 && str_eq s ""
    then none
    else elim (if code c == 43 then digits_from 0 s else digits_from 0 (String.◌∷◌ c s)) [
      | none ↦ none
      | some n ↦ if ltb n (2 ^ 63) then some n else none
    ]

digit_at : String → ℕ → String
digit_at String.[] d = ""
digit_at (String.◌∷◌ c s) zero = String.◌∷◌ c String.[]
digit_at (String.◌∷◌ c s) (suc d) = digit_at s d

-- The decimal digits of a number; the fuel bounds their number.
itoa_from : ℕ → ℕ → String
itoa_from zero n = ""
itoa_from (suc fuel) n = elim (ltb n 10) [
  | true ↦ digit_at "0123456789" n
  | false ↦ String.◌++◌ (itoa_from fuel (n / 10)) (digit_at "0123456789" (n % 10))
]

-- `strconv.Itoa`, and `%d`, of a number below 2^64.
unfoldable pub itoa : ℕ → String
unfolding itoa_from digit_at
itoa n = itoa_from 20 n

-- `strings.SplitN(s, sep, 2)` at a one-byte separator: what stands before it, and what stands
-- after it if it is there.
unfoldable pub cut : ℕ → String → String × Option String
cut sep String.[] = ("", none)
cut sep (String.◌∷◌ c s) =
    let (before, after) = cut sep s in
    if code c == sep then ("", some s) else (String.◌∷◌ c before, after)

-- `unicode.ToLower`, of what it takes to an ASCII letter.
unfoldable pub lower : ℕ → ℕ
lower c =
    if leb 65 c && leb c 90
    then c + 32
    else if c == 0x130
    then 0x69
    else if c == 0x212a
    then 0x6b
    else c

-- `strings.ToLower(s) == t`, for a `t` of ASCII characters.
unfoldable pub lowers_to : String → String → Bool
unfolding lower
lowers_to String.[] String.[] = true
lowers_to String.[] (String.◌∷◌ d t) = false
lowers_to (String.◌∷◌ c s) String.[] = false
lowers_to (String.◌∷◌ c s) (String.◌∷◌ d t) = lower (code c) == code d && lowers_to s t

insert_text : String → List String → List String
insert_text t [] = t ∷ []
insert_text t (u ∷ texts) =
    let rest = insert_text t texts in if is_le (String.compare t u) then t ∷ u ∷ texts else u ∷ rest

-- `sort.Strings`
unfoldable pub sort : List String → List String
unfolding insert_text
sort [] = []
sort (t ∷ texts) = insert_text t (sort texts)

module _ {κ} (P : String → Type κ) where
  All-insert_text :
      (t : String) (texts : List String) → P t → All P texts → All P (insert_text t texts)
  unfolding insert_text
  All-insert_text t [] h hs = (h, tt)
  All-insert_text t (u ∷ texts) h hs = elim (Bool-cases (is_le (String.compare t u))) [
    | inl le ↦ rw le (h, hs)
    | inr gt ↦ rw gt (hs.0, All-insert_text t texts h hs.1)
  ]

  pub All-sort : (texts : List String) → All P texts → All P (sort texts)
  unfolding sort
  All-sort [] h = tt
  All-sort (t ∷ texts) h = All-insert_text t (sort texts) h.0 (All-sort texts h.1)

-- An element of a list by its place in a list of two parts.
after_head :
    (s t u : String) (texts rest : List String)
    → (In s (t ∷ texts) → In s rest)
    → In s (t ∷ u ∷ texts)
    → In s (u ∷ rest)
after_head s t u texts rest f (inl same) = inr (f (inl same))
after_head s t u texts rest f (inr (inl same)) = inl same
after_head s t u texts rest f (inr (inr found)) = inr (f (inr found))

In-insert_text :
    (s t : String) (texts : List String) → In s (t ∷ texts) → In s (insert_text t texts)
unfolding insert_text
In-insert_text s t [] h = h
In-insert_text s t (u ∷ texts) h = elim (Bool-cases (is_le (String.compare t u))) [
  | inl le ↦ rw le h
  | inr gt ↦ rw gt (after_head s t u texts (insert_text t texts) (In-insert_text s t texts) h)
]

pub In-sort : (s : String) (texts : List String) → In s texts → In s (sort texts)
unfolding sort
In-sort s [] h = h
In-sort s (t ∷ texts) (inl same) = In-insert_text s t (sort texts) (inl same)
In-sort s (t ∷ texts) (inr found) = In-insert_text s t (sort texts) (inr (In-sort s texts found))

hex_fixed : ℕ → ℕ → String
hex_fixed zero n = ""
hex_fixed (suc k) n = String.◌++◌ (hex_fixed k (n / 16)) (digit_at "0123456789abcdef" (n % 16))

hex_from : ℕ → ℕ → String
hex_from zero n = ""
hex_from (suc fuel) n = elim (ltb n 16) [
  | true ↦ digit_at "0123456789abcdef" n
  | false ↦ String.◌++◌ (hex_from fuel (n / 16)) (digit_at "0123456789abcdef" (n % 16))
]

-- `%02x` of a byte
unfoldable pub hex_byte : ℕ → String
unfolding hex_fixed digit_at
hex_byte n = hex_fixed 2 n

-- `%06x` of a number below 2^64.
unfoldable pub hex6 : ℕ → String
unfolding hex_fixed hex_from digit_at
hex6 n = elim (ltb n (16 ^ 6)) [ true ↦ hex_fixed 6 n | false ↦ hex_from 16 n ]

-- `strings.Join(parts, "/")`
unfoldable pub join_path : List String → String
join_path [] = ""
join_path (p ∷ []) = p
join_path (p ∷ q ∷ parts) = String.◌++◌ p (String.◌++◌ "/" (join_path (q ∷ parts)))
