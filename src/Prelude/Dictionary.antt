-- ===== src/Prelude/Dictionary.antt =====
-- A Python dict, as a list of its entries; the first entry of a key is the one that counts.
use mathlib.Core.Path.{◌≡◌, refl, ap, ◌∙◌}
use mathlib.Core.Bool.{false}
use mathlib.Core.Logic.{inl, inr}
use mathlib.Core.List.{List, [], ◌∷◌}
use mathlib.Core.Option.{Option, none, some}
use alicerce.Prelude.Tests.{if◌then◌else◌, Bool-cases}
use alicerce.Prelude.Equality.{Eq, ◌==◌, eq_self, eq→path}

abbrev pub Dict {ℓ κ} : Type ℓ → Type κ → Type (ℓ ⊔ κ)
Dict K V = List (K × V)

module _ {ℓ κ} {K : Type ℓ} {V : Type κ} ⦃e : Eq K⦄ where
  -- `d.get(k)`
  unfoldable pub lookup : K → Dict K V → Option V
  lookup k [] = none
  lookup k ((j, v) ∷ d) = if j == k then some v else lookup k d

  -- `d.pop(k, None)`
  unfoldable pub pop : K → Dict K V → Dict K V
  pop k [] = []
  pop k ((j, v) ∷ d) = let rest = pop k d in if j == k then rest else (j, v) ∷ rest

  -- `d[k] = v`
  unfoldable pub put : K → V → Dict K V → Dict K V
  unfolding pop
  put k v d = (k, v) ∷ pop k d

  pub lookup-pop_self : (k : K) (d : Dict K V) → lookup k (pop k d) ≡ none
  unfolding lookup pop
  lookup-pop_self k [] = refl
  lookup-pop_self k ((j, v) ∷ d) = elim (Bool-cases (j == k)) [
    | inl same ↦ rw same (lookup-pop_self k d)
    | inr other ↦ rw (other, other) (lookup-pop_self k d)
  ]

  pub lookup-pop_other :
      (k j : K) (d : Dict K V) → (k == j) ≡ false → lookup j (pop k d) ≡ lookup j d
  unfolding lookup pop
  lookup-pop_other k j [] h = refl
  lookup-pop_other k j ((i, v) ∷ d) h = elim (Bool-cases (i == k)) [
    | inl same ↦ rw (same, ap (λ x. x == j) (eq→path i k same) ∙ h) (lookup-pop_other k j d h)
    | inr other ↦ rw (other, lookup-pop_other k j d h)
  ]

  pub lookup-put_self : (k : K) (v : V) (d : Dict K V) → lookup k (put k v d) ≡ some v
  unfolding lookup put
  lookup-put_self k v d = rw (eq_self k)

  pub lookup-put_other :
      (k j : K) (v : V) (d : Dict K V) → (k == j) ≡ false → lookup j (put k v d) ≡ lookup j d
  unfolding lookup put
  lookup-put_other k j v d h = rw h (lookup-pop_other k j d h)
