-- ===== src/Prelude/Sorting.antt =====
-- Python's order on integers, strings and tuples, and its `sorted`.
mod Sorted
pub use Sorted.{
  IsAscending, canonical→IsAscending, IsAscending→canonical, sorted-above, All-of_sorted,
}
unfoldable pub use Sorted.{sorted, is_canonical}
mod Lexicographic
pub use Lexicographic.{
  Order, lt, nat_lt_order, list_order, pair_order, lt_irreflexive, lt_transitive, lt_asymmetric,
  lt_total, le_transitive,
}
