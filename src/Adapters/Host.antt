-- ===== src/Adapters/Host.antt =====
-- Actions on the host: what the local adapters observe and do outside the program. An answer of the
-- host may be any value, and another process may change the host between two of them.
use alicerce.Prelude.{◌≡◌, refl, ap, Bool, true, false, arith}
use alicerce.Errors.{Exn, Result, ok, err}

abbrev pub Action {ℓ} : Type 0 → Type ℓ → Type ℓ
Action World A = World → Result A × World

module _ {World : Type 0} where
  abbrev pub proceed {ℓ κ} :
      {A : Type ℓ} {B : Type κ} → Result A × World → (A → Action World B) → Result B × World
  proceed (err e, world) next = (err e, world)
  proceed (ok value, world) next = next value world

  infixl 5 ◌>>=◌ ◌>>◌
  abbrev pub ◌>>=◌ {ℓ κ} :
      {A : Type ℓ} {B : Type κ} → Action World A → (A → Action World B) → Action World B
  ◌>>=◌ first next world = proceed (first world) next

  abbrev pub ◌>>◌ {ℓ κ} :
      {A : Type ℓ} {B : Type κ} → Action World A → Action World B → Action World B
  first >> second = first >>= λ _. second

  abbrev pub lift {ℓ} : {A : Type ℓ} → Result A → Action World A
  lift r world = (r, world)

  -- `a or b`, where `b` asks the host.
  abbrev pub either : Bool → Action World Bool → Action World Bool
  either true other = lift (ok true)
  either false other = other

  abbrev pub on_error {ℓ} : {A : Type ℓ} → (Exn → Exn) → Result A × World → Result A × World
  on_error f (ok value, world) = (ok value, world)
  on_error f (err e, world) = (err (f e), world)

  -- `try: … except …: raise …`
  abbrev pub rethrow {ℓ} : {A : Type ℓ} → (Exn → Exn) → Action World A → Action World A
  rethrow f action world = on_error f (action world)

  proceed_ok {ℓ κ} :
      {A : Type ℓ} {B : Type κ} (out : Result A × World) (next : A → Action World B) {b : B}
      {last : World}
      → proceed out next ≡ (ok b, last)
      → (a : A) × (middle : World) × (out ≡ (ok a, middle)) × (next a middle ≡ (ok b, last))
  proceed_ok (err e, world) next h = absurd (ground arith)
  proceed_ok (ok value, world) next h = (value, world, refl, h)

  -- Inversion of two steps that went well.
  pub action_ok {ℓ κ} :
      {A : Type ℓ} {B : Type κ} (first : Action World A) (next : A → Action World B) (world : World)
      {b : B} {last : World}
      → (first >>= next) world ≡ (ok b, last)
      → (a : A) × (middle : World) × (first world ≡ (ok a, middle)) × (next a middle ≡ (ok b, last))
  action_ok first next world h = proceed_ok (first world) next h

  error_ok {ℓ} :
      {A : Type ℓ} (f : Exn → Exn) (out : Result A × World) {a : A} {last : World}
      → on_error f out ≡ (ok a, last)
      → out ≡ (ok a, last)
  error_ok f (ok value, world) h = h
  error_ok f (err e, world) h = absurd (ground arith)

  pub rethrow_ok {ℓ} :
      {A : Type ℓ} (f : Exn → Exn) (action : Action World A) (world : World) {a : A} {last : World}
      → rethrow f action world ≡ (ok a, last)
      → action world ≡ (ok a, last)
  rethrow_ok f action world h = error_ok f (action world) h

  pub lift_ok {ℓ} :
      {A : Type ℓ} (r : Result A) (world : World) {a : A} {last : World}
      → lift r world ≡ (ok a, last)
      → r ≡ ok a
  lift_ok r world h = ap (λ (x : Result _ × World). x.0) h

  pub lift_same_world {ℓ} :
      {A : Type ℓ} (r : Result A) (world : World) {a : A} {last : World}
      → lift r world ≡ (ok a, last)
      → world ≡ last
  lift_same_world r world h = ap (λ (x : Result _ × World). x.1) h

  -- `a or b` that came out false: `a` is false, and `b` was asked.
  pub either-false :
      (a : Bool) (other : Action World Bool) (world last : World)
      → either a other world ≡ (ok false, last)
      → (a ≡ false) × (other world ≡ (ok false, last))
  either-false true other world last h = absurd (ground arith)
  either-false false other world last h = (refl, h)
