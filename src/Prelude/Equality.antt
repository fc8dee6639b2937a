-- ===== src/Prelude/Equality.antt =====
-- Python's `==` on the values of one type, as a decision of equality found by its instance.
use Prim.Native.Nat.{ℕ}
use mathlib.Core.Path.{◌≡◌, refl}
use mathlib.Core.Logic.{◌≢◌, ◌↔◌}
use mathlib.Core.Bool.{Bool, true, false}
use mathlib.Core.Option.{Option}
use mathlib.Core.List.{List}
use native.Mathlib.Omega.{arith}
use native.Mathlib.Decide.{ℕ_discrete}

pub record Eq {ℓ} (A : Type ℓ) : Type ℓ where
  pub dec : Discrete A

abbrev pub to_bool {ℓ} : {A : Type ℓ} → Dec A → Bool
to_bool d = elim d [ yes _ ↦ true | no _ ↦ false ]

infix 50 ◌==◌
unfoldable pub ◌==◌ {ℓ} : {A : Type ℓ} ⦃e : Eq A⦄ → A → A → Bool
◌==◌ ⦃e⦄ a b = to_bool (e.dec a b)

module _ {ℓ} {A : Type ℓ} ⦃e : Eq A⦄ where
  pub ==_iff : (a b : A) → ((a == b) ≡ true) ↔ (a ≡ b)
  unfolding ◌==◌
  ==_iff a b = ground arith

  pub eq_self : (a : A) → (a == a) ≡ true
  eq_self a = (==_iff a a).1 refl

  pub eq→path : (a b : A) → (a == b) ≡ true → a ≡ b
  eq→path a b = (==_iff a b).0

  pub ne→false : (a b : A) → a ≢ b → (a == b) ≡ false
  ne→false a b h = ground (arith, ==_iff a b)

instance abbrev pub nat_eq : Eq ℕ
nat_eq = record { dec = ℕ_discrete }

module _ {ℓ} {A : Type ℓ} ⦃e : Eq A⦄ where
  unfoldable pub option-discrete : Discrete (Option A)
  option-discrete = hlevel e.dec

  instance abbrev pub option_eq : Eq (Option A)
  option_eq = record { dec = option-discrete }

  unfoldable pub list-discrete : Discrete (List A)
  list-discrete = hlevel e.dec

  instance abbrev pub list_eq : Eq (List A)
  list_eq = record { dec = list-discrete }

module _ {ℓ κ} {A : Type ℓ} {B : Type κ} ⦃e : Eq A⦄ ⦃f : Eq B⦄ where
  unfoldable pub pair-discrete : Discrete (A × B)
  pair-discrete = hlevel (e.dec, f.dec)

  instance abbrev pub pair_eq : Eq (A × B)
  pair_eq = record { dec = pair-discrete }
