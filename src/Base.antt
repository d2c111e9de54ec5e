-- ===== src/Base.antt =====
-- The names that the other modules share: the libraries', passed on, and those of the children.
mod Tests
mod Lists
mod Text
mod Words
mod Maps
pub use Tests.*
pub use Lists.*
unfoldable pub use Text.{
  is_space, trim_space, contains, split, base, atoi, itoa, cut, lowers_to, sort, hex6, hex_byte,
  join_path,
}
unfoldable pub use Words.{
  any_eq, contains_any, trim_prefix, trim_suffix, trim_left_of, trim_of, fields, replace_code,
  concat, contains_lower,
}
pub use Text.{All-sort, In-sort}
pub use Maps.{Dict, lookup-insert, lookup-erase, lookup-insert_self, lookup-erase_self}
unfoldable pub use Maps.{lookup, insert, erase, value_of, keep_keys, keep_pairs, keys}
pub use Prim.Native.Nat.{ℕ, zero, suc, ◌+◌, ◌-◌, ◌*◌, ◌/◌, ◌%◌, ◌^◌, ◌≤◌, ◌<◌}
pub use Prim.Native.String.{String}
pub use mathlib.Core.Path.{◌≡◌, refl, sym, ap, ◌∙◌, subst}
pub use mathlib.Core.Logic.{◌≢◌, ◌↔◌, ◌⊎◌, inl, inr}
pub use mathlib.Core.Bool.{Bool, true, false, not, ◌&&◌, ◌||◌}
pub use mathlib.Core.Option.{Option, none, some}
pub use mathlib.Core.List.{List, [], ◌∷◌, ◌++◌, map, append-nil, append_assoc}
pub use native.Mathlib.Omega.{arith}
pub use text.Mathlib.Text.{◌==◌ as str_eq, starts_with}
pub use text.Mathlib.TextEquality.{eq_iff}
pub use text.Mathlib.TextPositions.{eq_refl}
