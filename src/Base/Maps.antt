-- ===== src/Base/Maps.antt =====
-- Go maps with text keys, as association lists. A new key goes to the end; `erase` drops every entry of its key.
use Prim.Native.String.{String}
use mathlib.Core.Path.{◌≡◌, refl}
use mathlib.Core.Option.{Option, none, some}
use mathlib.Core.List.{List, [], ◌∷◌}
use mathlib.Core.Bool.{Bool}
use native.Mathlib.Omega.{arith}
use text.Mathlib.Text.{◌==◌ as str_eq}
use text.Mathlib.TextEquality.{eq_iff}
use text.Mathlib.TextPositions.{eq_refl}
use gc_runtime_nomad.Base.Tests.{if◌then◌else◌}

abbrev pub Dict {ℓ} : Type ℓ → Type ℓ
Dict V = List (String × V)

module _ {ℓ} {V : Type ℓ} where
  unfoldable pub lookup : String → Dict V → Option V
  lookup key [] = none
  lookup key ((k, v) ∷ dict) = if str_eq k key then some v else lookup key dict

  unfoldable pub insert : String → V → Dict V → Dict V
  insert key value [] = (key, value) ∷ []
  insert key value ((k, v) ∷ dict) =
      if str_eq k key then (key, value) ∷ dict else (k, v) ∷ insert key value dict

  unfoldable pub erase : String → Dict V → Dict V
  erase key [] = []
  erase key ((k, v) ∷ dict) =
      let rest = erase key dict in if str_eq k key then rest else (k, v) ∷ rest

  -- A copy of the map that leaves some keys out, or some pairs.
  unfoldable pub keep_keys : (String → Bool) → Dict V → Dict V
  keep_keys p [] = []
  keep_keys p ((k, v) ∷ dict) = let rest = keep_keys p dict in if p k then (k, v) ∷ rest else rest

  unfoldable pub keep_pairs : (String → V → Bool) → Dict V → Dict V
  keep_pairs p [] = []
  keep_pairs p ((k, v) ∷ dict) =
      let rest = keep_pairs p dict in if p k v then (k, v) ∷ rest else rest

  unfoldable pub keys : Dict V → List String
  keys [] = []
  keys ((k, v) ∷ dict) = k ∷ keys dict

  pub lookup-insert :
      (key j : String) (value : V) (dict : Dict V)
      → lookup j (insert key value dict) ≡ (if str_eq key j then some value else lookup j dict)
  unfolding lookup insert
  lookup-insert key j value [] = refl
  lookup-insert key j value ((k, v) ∷ dict) =
      ground (arith, eq_iff key j, eq_iff k key, eq_iff k j, lookup-insert key j value dict)

  pub lookup-erase :
      (key j : String) (dict : Dict V)
      → lookup j (erase key dict) ≡ (if str_eq key j then none else lookup j dict)
  unfolding lookup erase
  lookup-erase key j [] = ground arith
  lookup-erase key j ((k, v) ∷ dict) =
      ground (arith, eq_iff key j, eq_iff k key, eq_iff k j, lookup-erase key j dict)

-- `m[key]` of a map of texts
unfoldable pub value_of : String → Dict String → String
unfolding lookup
value_of key dict = elim (lookup key dict) [ none ↦ "" | some v ↦ v ]

module _ {ℓ} {V : Type ℓ} where
  pub lookup-insert_self :
      (key : String) (value : V) (dict : Dict V) → lookup key (insert key value dict) ≡ some value
  lookup-insert_self key value dict = rw (lookup-insert key key value dict) (rw (eq_refl key))

  pub lookup-erase_self : (key : String) (dict : Dict V) → lookup key (erase key dict) ≡ none
  lookup-erase_self key dict = rw (lookup-erase key key dict) (rw (eq_refl key))
