-- ===== src/Base.antt =====
-- The names that the other modules share: the libraries', passed on, and those of the children.
mod Tests
mod Lists
mod Int
mod Equality
mod Maps
mod Text
mod Actions
mod Floats
mod Ids
pub mod Urls
pub mod Flags
pub mod Numbers
pub use Tests.*
pub use Lists.*
unfoldable pub use Lists.{sort_by}
unfoldable pub use Int.{◌+ℤ◌, ◌-ℤ◌, int64, add_int, sub_int, div_int}
pub use Int.{
  ℤ, pos, negsuc, pos_part, neg_part, ltb_ℤ, leb_ℤ, eqb_ℤ, eqb_ℤ_iff, IsInt, max_int, int64-pos,
  int64-IsInt, add_int-pos, sub_int-pos, sub_int-below,
}
pub use Equality.*
unfoldable pub use Maps.{lookup, has_key, insert, delete}
pub use Maps.{
  Dict, keys, size, lookup-insert, lookup-delete, has_key_iff, has_key-none, insert-insert,
}
unfoldable pub use Text.{trim_space, to_lower, event_id, decimal_int}
pub use Text.{codes, spells, before}
pub use Maps.{
  HasDistinctKeys, AllEntries, entries_found, contains-keys-insert, HasDistinctKeys-insert,
  contains-keys-delete, HasDistinctKeys-delete, lookup-insert_cases, lookup-insert_self,
  lookup-insert_ne,
}
pub use Actions.*
pub use Floats.*
pub use Ids.*
unfoldable pub use Ids.{contains, remove_first}
pub use Prim.Native.Nat.{ℕ, zero, suc, ◌+◌, ◌-◌, ◌*◌, ◌/◌, ◌%◌, ◌^◌, ◌≤◌, ◌<◌}
pub use Prim.Native.String.{String}
pub use mathlib.Core.Path.{◌≡◌, refl, sym, ap, ◌∙◌, subst}
pub use mathlib.Core.Logic.{◌≢◌, ◌↔◌, ◌⊎◌, inl, inr}
pub use mathlib.Core.Bool.{Bool, true, false, ◌&&◌, ◌||◌, not}
pub use mathlib.Core.Option.{Option, none, some}
pub use text.Mathlib.TextEquality.{eq_iff}
pub use mathlib.Core.List.{List, [], ◌∷◌, ◌++◌, map}
pub use native.Mathlib.Omega.{arith}
unfoldable pub use native.Mathlib.Decide.{dec_lt, ℕ_discrete}
