-- ===== src/Prelude.antt =====
-- The names that the other modules share: the libraries', passed on, and those of the children.
pub mod Tests
pub mod Lists
pub mod Dictionary
pub mod Sort
pub mod Reorder
pub use Tests.{
  ltb, leb, ◌==◌, if◌then◌else◌, ltb→lt, lt→ltb, leb→le, le→leb, ==_iff, tests, Bool-cases,
  Option-cases,
}
pub use Lists.{
  length, get_elem?, set, replicate, length-append, length-map, filter, any, all, All, sum,
  length-replicate, sum-append, All-append, All-filter,
}
unfoldable pub use Dictionary.{lookup, insert, remove}
pub use Dictionary.{
  Eq, ◌=?◌, string_eq, Dict, =?-refl, =?-sym, contains, keys, values, lookup-insert, lookup-remove,
  lookup-not_key, AllBindings, AllBindings-insert, AllBindings-lookup, map_values,
  AllBindings-map_values, lookup-map_values, keys-map_values,
}
unfoldable pub use Sort.{insert_by, sort_by}
pub use Sort.{any-sort_by, All-insert_by, All-sort_by, length-sort_by, sum-sort_by}
pub use Prim.Native.Nat.{ℕ, zero, suc, ◌+◌, ◌-◌, ◌*◌, ◌/◌, ◌%◌, ◌^◌, ◌≤◌, ◌<◌, min, max}
pub use Prim.Native.String.{String}
pub use mathlib.Core.Path.{◌≡◌, refl, sym, ap, ap₂, subst, ◌∙◌}
pub use mathlib.Core.Logic.{◌≢◌, ◌↔◌, ◌⊎◌, inl, inr}
pub use mathlib.Core.Bool.{Bool, true, false, not, ◌&&◌, ◌||◌}
pub use mathlib.Core.Option.{Option, none, some}
pub use mathlib.Core.List.{List, [], ◌∷◌, ◌++◌, map}
pub use native.Mathlib.Omega.{arith}
pub use text.Mathlib.TextEquality.{eq_iff}
pub use text.Mathlib.TextPositions.{eq_refl}
