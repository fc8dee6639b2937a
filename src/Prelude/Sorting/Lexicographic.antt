-- ===== src/Prelude/Sorting/Lexicographic.antt =====
-- Strict total orders as instances, and the lexicographic order of lists and pairs.
use Prim.Native.Nat.{ℕ}
use mathlib.Core.Path.{◌≡◌, refl}
use mathlib.Core.Bool.{Bool, true, false}
use mathlib.Core.List.{List, [], ◌∷◌}
use native.Mathlib.Omega.{arith}
use alicerce.Prelude.Tests.{ltb, if◌then◌else◌, Bool-cases}
use mathlib.Core.Logic.{inl, inr}

pub record Order {ℓ} (A : Type ℓ) : Type ℓ where
  pub less : A → A → Bool
  pub irreflexive : (a : A) → less a a ≡ false
  pub transitive : (a b c : A) → less a b ≡ true → less b c ≡ true → less a c ≡ true
  pub total : (a b : A) → less a b ≡ false → less b a ≡ false → a ≡ b

-- `a < b`
abbrev pub lt {ℓ} : {A : Type ℓ} ⦃o : Order A⦄ → A → A → Bool
lt ⦃o⦄ = o.less

module _ {ℓ} {A : Type ℓ} ⦃o : Order A⦄ where
  pub lt_irreflexive : (a : A) → lt a a ≡ false
  lt_irreflexive = o.irreflexive

  pub lt_transitive : (a b c : A) → lt a b ≡ true → lt b c ≡ true → lt a c ≡ true
  lt_transitive = o.transitive

  pub lt_total : (a b : A) → lt a b ≡ false → lt b a ≡ false → a ≡ b
  lt_total = o.total

  pub lt_asymmetric : (a b : A) → lt a b ≡ true → lt b a ≡ false
  lt_asymmetric a b h = elim (Bool-cases (lt b a)) [
    | inl back ↦ cc (o.transitive a b a h back, o.irreflexive a)
    | inr fine ↦ fine
  ]

  -- what is not above `b` is not above anything that `b` is not above
  pub le_transitive : (a b c : A) → lt b a ≡ false → lt c b ≡ false → lt c a ≡ false
  le_transitive a b c p q = elim (Bool-cases (lt c a)) [
    | inr fine ↦ fine
    | inl under ↦ elim (Bool-cases (lt a b)) [
      | inl ab ↦ cc (lt_transitive c a b under ab)
      | inr ba ↦ cc (lt_total a b ba p)
    ]
  ]

pub ltb_irreflexive : (a : ℕ) → ltb a a ≡ false
ltb_irreflexive a = ground arith

pub ltb_transitive : (a b c : ℕ) → ltb a b ≡ true → ltb b c ≡ true → ltb a c ≡ true
ltb_transitive a b c p q = ground arith

pub ltb_total : (a b : ℕ) → ltb a b ≡ false → ltb b a ≡ false → a ≡ b
ltb_total a b p q = ground arith

instance abbrev pub nat_lt_order : Order ℕ
nat_lt_order = record {
  less = ltb;
  irreflexive = ltb_irreflexive;
  transitive = ltb_transitive;
  total = ltb_total;
}

-- The first difference decides, and a proper prefix comes first.
abbrev pub list_less {ℓ} : {A : Type ℓ} → (A → A → Bool) → List A → List A → Bool
list_less less xs [] = false
list_less less [] (y ∷ ys) = true
list_less less (x ∷ xs) (y ∷ ys) =
    let rest = list_less less xs ys in if less x y then true else if less y x then false else rest

module _ {ℓ} {A : Type ℓ} ⦃o : Order A⦄ where
  pub list_irreflexive : (xs : List A) → list_less o.less xs xs ≡ false
  list_irreflexive [] = refl
  list_irreflexive (x ∷ xs) = ground (arith, lt_irreflexive x, list_irreflexive xs)

  pub list_total :
      (xs ys : List A) → list_less o.less xs ys ≡ false → list_less o.less ys xs ≡ false → xs ≡ ys
  list_total [] [] p q = refl
  list_total [] (y ∷ ys) p q = cc
  list_total (x ∷ xs) [] p q = cc
  list_total (x ∷ xs) (y ∷ ys) p q = ground (arith, lt_total x y, list_total xs ys)

  pub list_transitive :
      (xs ys zs : List A)
      → list_less o.less xs ys ≡ true
      → list_less o.less ys zs ≡ true
      → list_less o.less xs zs ≡ true
  list_transitive xs [] zs p q = cc
  list_transitive xs (y ∷ ys) [] p q = cc
  list_transitive [] (y ∷ ys) (z ∷ zs) p q = refl
  list_transitive (x ∷ xs) (y ∷ ys) (z ∷ zs) p q = ground (
    arith,
    lt_transitive x y z,
    lt_asymmetric x z,
    lt_asymmetric y z,
    lt_total x y,
    lt_total y z,
    list_transitive xs ys zs,
  )

  instance abbrev pub list_order : Order (List A)
  list_order = record {
    less = list_less o.less;
    irreflexive = list_irreflexive;
    transitive = list_transitive;
    total = list_total;
  }

module _ {ℓ κ} {A : Type ℓ} {B : Type κ} ⦃o : Order A⦄ ⦃u : Order B⦄ where
  abbrev pub pair_less : A × B → A × B → Bool
  pair_less (a, b) (c, d) = if o.less a c then true else if o.less c a then false else u.less b d

  pub pair_irreflexive : (p : A × B) → pair_less p p ≡ false
  pair_irreflexive (a, b) = ground (arith, o.irreflexive a, u.irreflexive b)

  pub pair_transitive :
      (p q r : A × B) → pair_less p q ≡ true → pair_less q r ≡ true → pair_less p r ≡ true
  pair_transitive (a, b) (c, d) (e, f) h k = ground (
    arith,
    lt_transitive a c e,
    lt_asymmetric a e,
    lt_asymmetric c e,
    lt_total a c,
    lt_total c e,
    u.transitive b d f,
  )

  pub pair_total : (p q : A × B) → pair_less p q ≡ false → pair_less q p ≡ false → p ≡ q
  pair_total (a, b) (c, d) h k = ground (arith, lt_total a c, u.total b d)

  instance abbrev pub pair_order : Order (A × B)
  pair_order = record {
    less = pair_less;
    irreflexive = pair_irreflexive;
    transitive = pair_transitive;
    total = pair_total;
  }
