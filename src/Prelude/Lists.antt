-- ===== src/Prelude/Lists.antt =====
-- Lists measured by native numbers, and the tests that Python makes on tuples.
use Prim.Native.Nat.{ℕ, suc, ◌+◌}
use mathlib.Core.Path.{◌≡◌, ap, sym, ◌∙◌}
use mathlib.Core.Logic.{◌⊎◌, inl, inr}
use mathlib.Core.Bool.{Bool, true, false, ◌&&◌, ◌||◌, not}
use mathlib.Core.List.{List, [], ◌∷◌, ◌++◌}
use native.Mathlib.Omega.{arith}
use alicerce.Prelude.Equality.{Eq, ◌==◌}
use alicerce.Prelude.Tests.{if◌then◌else◌, Bool-cases}

module _ {ℓ} {A : Type ℓ} where
  abbrev pub length : List A → ℕ
  length [] = 0
  length (x ∷ xs) = suc (length xs)

  pub length-append : (xs ys : List A) → length (xs ++ ys) ≡ length xs + length ys
  length-append [] ys = omega arith
  length-append (x ∷ xs) ys = omega (arith, length-append xs ys)

  abbrev pub all : (A → Bool) → List A → Bool
  all p [] = true
  all p (x ∷ xs) = p x && all p xs

  -- `[x for x in xs if p(x)]`
  abbrev pub select : (A → Bool) → List A → List A
  select p [] = []
  select p (x ∷ xs) = let rest = select p xs in if p x then x ∷ rest else rest

  abbrev pub All {κ} : (A → Type κ) → List A → Type κ
  All P [] = Unit
  All P (x ∷ xs) = P x × All P xs

  pub All-mono {κ ι} :
      {P : A → Type κ} {Q : A → Type ι}
      → ((a : A) → P a → Q a)
      → (xs : List A) → All P xs
      → All Q xs
  All-mono h [] p = tt
  All-mono h (x ∷ xs) p = (h x p.0, All-mono h xs p.1)

  pub all→All : (p : A → Bool) (xs : List A) → all p xs ≡ true → All (λ x. p x ≡ true) xs
  all→All p [] h = tt
  all→All p (x ∷ xs) h = (ground arith, all→All p xs (ground arith))

module _ {A : Type 0} where
  -- `x` stands in the list.
  abbrev pub In : A → List A → Type 0
  In x [] = ⊥
  In x (y ∷ ys) = (x ≡ y) ⊎ In x ys

  pub In-of_select :
      (p : A → Bool) (x : A) (xs : List A) → In x (select p xs) → In x xs × (p x ≡ true)
  In-of_select p x [] h = absurd h
  In-of_select p x (y ∷ ys) h = elim (Bool-cases (p y)) [
    | inl taken ↦
        let g : In x (y ∷ select p ys) = rw taken at h in
        elim g [
          | inl same ↦ (inl same, ap p same ∙ taken)
          | inr later ↦ let (there, fits) = In-of_select p x ys later in (inr there, fits)
        ]
    | inr left ↦
        let g : In x (select p ys) = rw left at h in
        let (there, fits) = In-of_select p x ys g in (inr there, fits)
  ]

  pub In-select : (p : A → Bool) (x : A) (xs : List A) → In x xs → p x ≡ true → In x (select p xs)
  In-select p x [] h fits = absurd h
  In-select p x (y ∷ ys) (inl same) fits = rw (sym (ap p same) ∙ fits) (inl same)
  In-select p x (y ∷ ys) (inr later) fits = elim (Bool-cases (p y)) [
    | inl taken ↦ rw taken (inr (In-select p x ys later fits))
    | inr left ↦ rw left (In-select p x ys later fits)
  ]

module _ {ℓ} {A : Type ℓ} ⦃e : Eq A⦄ where
  -- `a in xs`
  unfoldable pub elem : A → List A → Bool
  elem a [] = false
  elem a (x ∷ xs) = a == x || elem a xs

  -- `len(xs) == len(set(xs))`
  unfoldable pub no_duplicates : List A → Bool
  no_duplicates [] = true
  no_duplicates (x ∷ xs) = not (elem x xs) && no_duplicates xs
