-- ===== src/DateTime.antt =====
-- Python's `datetime`: the fields that it compares, and whether its `tzinfo` is the object `UTC`.
-- The program compares instants only after it has required UTC of both, where Python's order is
-- the lexicographic order of the fields.
use alicerce.Prelude.{
  ℕ, ◌≡◌, Bool, true, false, List, [], ◌∷◌, ℕ_discrete, Eq, lt, lt_irreflexive, le_transitive,
  list_order, nat_lt_order,
}

pub data TzInfo : Type 0 where
  utc other : TzInfo

pub record DateTime : Type 0 where
  pub year : ℕ
  pub month : ℕ
  pub day : ℕ
  pub hour : ℕ
  pub minute : ℕ
  pub second : ℕ
  pub microsecond : ℕ
  pub tzinfo : TzInfo

unfoldable pub DateTime-discrete : Discrete DateTime
unfolding ℕ_discrete
DateTime-discrete = hlevel ℕ_discrete

instance abbrev pub datetime_eq : Eq DateTime
datetime_eq = record { dec = DateTime-discrete }

-- `d.tzinfo is UTC`
abbrev pub is_utc : DateTime → Bool
is_utc d = elim d.tzinfo [ utc ↦ true | other ↦ false ]

abbrev pub fields : DateTime → List ℕ
fields d = d.year ∷ d.month ∷ d.day ∷ d.hour ∷ d.minute ∷ d.second ∷ d.microsecond ∷ []

-- `a < b`, for two instants in UTC
unfoldable pub before : DateTime → DateTime → Bool
before a b = lt (fields a) (fields b)

pub before_irreflexive : (a : DateTime) → before a a ≡ false
unfolding before
before_irreflexive a = lt_irreflexive (fields a)

-- `not (b < a)` is a total preorder.
pub not_before_transitive :
    (a b c : DateTime) → before b a ≡ false → before c b ≡ false → before c a ≡ false
unfolding before
not_before_transitive a b c p q = le_transitive (fields a) (fields b) (fields c) p q
