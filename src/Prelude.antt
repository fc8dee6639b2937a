-- ===== src/Prelude.antt =====
-- The names that the other modules share: the libraries', passed on, and those of the children.
mod Tests
mod Equality
mod Lists
mod Sorting
mod Strings
mod Int
mod Dictionary
pub use Tests.{ltb, leb, if◌then◌else◌, Bool-cases, Option-cases, and_left, and_right, and_intro}
pub use Equality.{
  Eq, to_bool, ==_iff, eq_self, eq→path, nat_eq, ne→false, option_eq, list_eq, pair_eq,
}
unfoldable pub use Equality.{◌==◌, option-discrete, list-discrete, pair-discrete}
pub use Lists.{
  length, length-append, all, select, All, All-mono, all→All, In, In-select, In-of_select,
}
unfoldable pub use Lists.{elem, no_duplicates}
pub use Sorting.{
  IsAscending, canonical→IsAscending, IsAscending→canonical, sorted-above, All-of_sorted, Order, lt,
  nat_lt_order, list_order, pair_order, lt_irreflexive, lt_transitive, lt_asymmetric, lt_total,
  le_transitive,
}
unfoldable pub use Sorting.{sorted, is_canonical}
pub use Strings.{Text, Bytes, text, nul, slash, backslash}
pub use Int.{ℤ, pos, negsuc, int_eq}
unfoldable pub use Int.{ℤ-discrete}
pub use Prim.Native.Nat.{ℕ, zero, suc, ◌+◌, ◌-◌, ◌*◌, ◌/◌, ◌%◌, ◌≤◌, ◌<◌}
pub use Prim.Native.String.{String}
pub use mathlib.Core.Path.{◌≡◌, refl, sym, ap, ◌∙◌}
pub use mathlib.Core.Logic.{◌≢◌, ◌↔◌, ◌⊎◌, inl, inr}
pub use mathlib.Core.Bool.{Bool, true, false, ◌&&◌, ◌||◌, not}
pub use mathlib.Core.Option.{Option, none, some}
pub use mathlib.Core.List.{List, [], ◌∷◌, ◌++◌, map}
pub use native.Mathlib.Omega.{arith}
unfoldable pub use native.Mathlib.Decide.{ℕ_discrete}
pub use Dictionary.{Dict, lookup-pop_self, lookup-pop_other, lookup-put_self, lookup-put_other}
unfoldable pub use Dictionary.{lookup, pop, put}
