-- ===== src/Prelude/Sorting/Sorted.antt =====
-- `sorted`, and the test `xs == tuple(sorted(xs)) and len(xs) == len(set(xs))`.
use mathlib.Core.Path.{◌≡◌, refl, sym, subst}
use mathlib.Core.Bool.{Bool, true, false, ◌&&◌}
use mathlib.Core.List.{List, [], ◌∷◌, ◌++◌}
use mathlib.Core.Logic.{inl, inr}
use native.Mathlib.Omega.{arith}
use alicerce.Prelude.Tests.{if◌then◌else◌, Bool-cases}
use alicerce.Prelude.Equality.{Eq, ◌==◌, ==_iff, eq_self, eq→path, list_eq}
use alicerce.Prelude.Lists.{All, All-mono, elem, no_duplicates}
use alicerce.Prelude.Sorting.Lexicographic.{
  Order, lt, lt_irreflexive, le_transitive, lt_asymmetric, lt_total,
}

module _ {ℓ} {A : Type ℓ} ⦃o : Order A⦄ where
  pub insert : A → List A → List A
  insert x [] = x ∷ []
  insert x (y ∷ ys) = if lt y x then y ∷ insert x ys else x ∷ y ∷ ys

  unfoldable pub sorted : List A → List A
  unfolding insert
  sorted [] = []
  sorted (x ∷ xs) = insert x (sorted xs)

  -- Each element is strictly below every later one.
  abbrev pub IsAscending : List A → Type ℓ
  IsAscending [] = Unit
  IsAscending (x ∷ xs) = All (λ y. lt x y ≡ true) xs × IsAscending xs

  abbrev IsWeak : List A → Type ℓ
  IsWeak [] = Unit
  IsWeak (x ∷ xs) = All (λ y. lt y x ≡ false) xs × IsWeak xs

  All-insert {κ} : (P : A → Type κ) (x : A) (xs : List A) → P x → All P xs → All P (insert x xs)
  unfolding insert
  All-insert P x [] p h = (p, tt)
  All-insert P x (y ∷ ys) p h = elim (Bool-cases (lt y x)) [
    | inl below ↦ rw below (h.0, All-insert P x ys p h.1)
    | inr above ↦ rw above (p, h)
  ]

  insert-IsWeak : (x : A) (xs : List A) → IsWeak xs → IsWeak (insert x xs)
  unfolding insert
  insert-IsWeak x [] h = (tt, tt)
  insert-IsWeak x (y ∷ ys) h = elim (Bool-cases (lt y x)) [
    | inl below ↦ rw below (All-insert _ x ys (lt_asymmetric y x below) h.0, insert-IsWeak x ys h.1)
    | inr above ↦ rw above ((above, All-mono (λ z zy. le_transitive x y z above zy) ys h.0), h)
  ]

  sorted-IsWeak : (xs : List A) → IsWeak (sorted xs)
  unfolding sorted
  sorted-IsWeak [] = tt
  sorted-IsWeak (x ∷ xs) = insert-IsWeak x (sorted xs) (sorted-IsWeak xs)

  insert-below : (x : A) (xs : List A) → All (λ y. lt x y ≡ true) xs → insert x xs ≡ x ∷ xs
  unfolding insert
  insert-below x [] h = refl
  insert-below x (y ∷ ys) h = rw (lt_asymmetric x y h.0)

  sorted-IsAscending : (xs : List A) → IsAscending xs → sorted xs ≡ xs
  unfolding sorted
  sorted-IsAscending [] h = refl
  sorted-IsAscending (x ∷ xs) h = rw (sorted-IsAscending xs h.1) (insert-below x xs h.0)

  insert-above : (x : A) (xs : List A) → All (λ y. lt y x ≡ true) xs → insert x xs ≡ xs ++ x ∷ []
  unfolding insert
  insert-above x [] h = refl
  insert-above x (y ∷ ys) h = rw (h.0, insert-above x ys h.1)

  -- What is above all that is there is sorted to the end.
  pub sorted-above :
      (x : A) (xs : List A)
      → All (λ y. lt y x ≡ true) (sorted xs)
      → sorted (x ∷ xs) ≡ sorted xs ++ x ∷ []
  unfolding sorted
  sorted-above x xs h = insert-above x (sorted xs) h

  All-of_insert {κ} : (P : A → Type κ) (x : A) (xs : List A) → All P (insert x xs) → P x × All P xs
  unfolding insert
  All-of_insert P x [] h = h
  All-of_insert P x (y ∷ ys) h = elim (Bool-cases (lt y x)) [
    | inl below ↦
        let g : All P (y ∷ insert x ys) = rw below at h in
        let (px, rest) = All-of_insert P x ys g.1 in (px, (g.0, rest))
    | inr above ↦ let g : All P (x ∷ y ∷ ys) = rw above at h in g
  ]

  pub All-of_sorted {κ} : (P : A → Type κ) (xs : List A) → All P (sorted xs) → All P xs
  unfolding sorted
  All-of_sorted P [] h = tt
  All-of_sorted P (x ∷ xs) h =
      let (px, rest) = All-of_insert P x (sorted xs) h in (px, All-of_sorted P xs rest)

module _ {ℓ} {A : Type ℓ} ⦃e : Eq A⦄ ⦃o : Order A⦄ where
  unfoldable pub is_canonical : List A → Bool
  is_canonical xs = (xs == sorted xs) && no_duplicates xs

  All-strict :
      (x : A) (xs : List A)
      → elem x xs ≡ false
      → All (λ y. lt y x ≡ false) xs
      → All (λ y. lt x y ≡ true) xs
  unfolding elem
  All-strict x [] h w = tt
  All-strict x (y ∷ ys) h w =
      (ground (arith, ==_iff x y, lt_total x y), All-strict x ys (ground arith) w.1)

  strict : (xs : List A) → no_duplicates xs ≡ true → IsWeak xs → IsAscending xs
  unfolding no_duplicates
  strict [] h w = tt
  strict (x ∷ xs) h w = (All-strict x xs (ground arith) w.0, strict xs (ground arith) w.1)

  elem-below : (x : A) (xs : List A) → All (λ y. lt x y ≡ true) xs → elem x xs ≡ false
  unfolding elem
  elem-below x [] h = refl
  elem-below x (y ∷ ys) h = ground (arith, ==_iff x y, lt_irreflexive x, elem-below x ys h.1)

  no_duplicates-IsAscending : (xs : List A) → IsAscending xs → no_duplicates xs ≡ true
  unfolding no_duplicates
  no_duplicates-IsAscending [] h = refl
  no_duplicates-IsAscending (x ∷ xs) h =
      ground (arith, elem-below x xs h.0, no_duplicates-IsAscending xs h.1)

  pub canonical→IsAscending : (xs : List A) → is_canonical xs ≡ true → IsAscending xs
  unfolding is_canonical
  canonical→IsAscending xs h =
      strict xs (ground arith)
        (subst IsWeak (sym (eq→path xs (sorted xs) (ground arith))) (sorted-IsWeak xs))

  pub IsAscending→canonical : (xs : List A) → IsAscending xs → is_canonical xs ≡ true
  unfolding is_canonical
  IsAscending→canonical xs h =
      rw (sorted-IsAscending xs h, no_duplicates-IsAscending xs h, eq_self xs)
