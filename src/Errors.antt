-- ===== src/Errors.antt =====
-- The exceptions that the program raises, by class and typed cause. The message texts are left out.
-- One data type stands for all of them, since an `except` clause of one layer names classes of
-- another; the subclass relation that those clauses rest on is `is_type_or_value_error`.
mod Causes
pub use Causes.*
use mathlib.Core.Path.{subst}
use native.Mathlib.Omega.{arith}
use alicerce.Prelude.{
  ◌≡◌, refl, ◌⊎◌, inl, inr, Bool, true, false, not, Option, none, some, List, [], ◌∷◌,
}

pub data Exn : Type 0 where
  type_error value_error key_error decode_error : Exn
  runtime_error os_error subprocess_error sqlite_error : Exn
  -- no exception: a loop on fuel that has not ended
  loop_not_ended : Exn
  state_serialization_error evidence_serialization_error : Exn
  lifecycle_error : LifecycleErrorCause → Exn
  state_invariant_error : StateInvariantCause → Exn
  contract_binding_error : ContractBindingCause → Exn
  authorization_error : CommandAuthorizationErrorCause → Exn
  resume_error : ResumeErrorCause → Exn
  state_store_error : StateStoreErrorCause → Exn
  workspace_error : WorkspaceErrorCause → Exn
  execution_error : CommandExecutionErrorCause → Exn
  sandbox_error : SandboxErrorCause → Exn
  git_error : GitCliErrorCause → Exn

-- `except (TypeError, ValueError)`, with the classes that derive from ValueError.
unfoldable pub is_type_or_value_error : Exn → Bool
is_type_or_value_error type_error = true
is_type_or_value_error value_error = true
is_type_or_value_error decode_error = true
is_type_or_value_error state_serialization_error = true
is_type_or_value_error evidence_serialization_error = true
is_type_or_value_error (lifecycle_error _) = true
is_type_or_value_error (state_invariant_error _) = true
is_type_or_value_error (contract_binding_error _) = true
is_type_or_value_error _ = false

pub data Result {ℓ} (A : Type ℓ) : Type ℓ where
  ok : A → Result A
  err : Exn → Result A

infixl 5 ◌>>=◌ ◌>>◌
abbrev pub ◌>>=◌ {ℓ κ} : {A : Type ℓ} {B : Type κ} → Result A → (A → Result B) → Result B
err e >>= _ = err e
ok value >>= next = next value

abbrev pub ◌>>◌ {ℓ κ} : {A : Type ℓ} {B : Type κ} → Result A → Result B → Result B
m >> k = m >>= λ _. k

-- `if b: raise e`
abbrev pub raise_if : Bool → Exn → Result (Unit {0})
raise_if true e = err e
raise_if false e = ok tt

-- The value, or `raise e` for None.
abbrev pub or_raise {ℓ} : {A : Type ℓ} → Option A → Exn → Result A
or_raise none e = err e
or_raise (some a) e = ok a

-- `try: … except …: raise …`
abbrev pub reraise {ℓ} : {A : Type ℓ} → (Exn → Exn) → Result A → Result A
reraise f (ok a) = ok a
reraise f (err e) = err (f e)

-- `for x in xs: f(x)`, collecting the results.
unfoldable pub traverse {ℓ κ} :
    {A : Type ℓ} {B : Type κ} → (A → Result B) → List A → Result (List B)
traverse f [] = ok []
traverse f (x ∷ xs) = do y ← f x; ys ← traverse f xs; ok (y ∷ ys)

module _ {ℓ κ} {A : Type ℓ} {B : Type κ} where
  -- Inversion of a bind that succeeded.
  pub bind_ok :
      (first : Result A) (next : A → Result B) {b : B}
      → (first >>= next) ≡ ok b
      → (a : A) × (first ≡ ok a) × (next a ≡ ok b)
  bind_ok (err e) next h = cc
  bind_ok (ok value) next h = (value, refl, h)

pub raise_if_ok {ℓ} :
    {B : Type ℓ} (c : Bool) (e : Exn) (k : Result B) {b : B}
    → (raise_if c e >> k) ≡ ok b
    → (c ≡ false) × (k ≡ ok b)
raise_if_ok true e k h = cc
raise_if_ok false e k h = (refl, h)

-- What holds of the exception of a guard that fails, and of those that come after it.
pub raise_if-refuses {ℓ κ} :
    {B : Type ℓ} (P : Exn → Type κ) (c : Bool) (e : Exn) (k : Result B)
    → (c ≡ true → P e)
    → ((x : Exn) → k ≡ err x → P x)
    → (x : Exn) → (raise_if c e >> k) ≡ err x
    → P x
raise_if-refuses P true e k here later x h = subst P (ground arith) (here refl)
raise_if-refuses P false e k here later x h = later x h

pub Result-cases {ℓ} :
    {A : Type ℓ} (r : Result A) → ((a : A) × (r ≡ ok a)) ⊎ ((e : Exn) × (r ≡ err e))
Result-cases (ok a) = inl (a, refl)
Result-cases (err e) = inr (e, refl)

pub or_raise_ok {ℓ} :
    {A : Type ℓ} (o : Option A) (e : Exn) {a : A} → or_raise o e ≡ ok a → o ≡ some a
or_raise_ok none e h = cc
or_raise_ok (some x) e h = cc

pub ok_injective {ℓ} : {A : Type ℓ} {a c : A} → (let r : Result A = ok a in r) ≡ ok c → a ≡ c
ok_injective h = cc h

-- The test of a guard that let pass.
pub raise_if_passed : (c : Bool) (e : Exn) {u : Unit {0}} → raise_if c e ≡ ok u → c ≡ false
raise_if_passed true e h = absurd (ground arith)
raise_if_passed false e h = refl

pub raise_if-not_passed : (c : Bool) (e : Exn) {u : Unit {0}} → raise_if (not c) e ≡ ok u → c ≡ true
raise_if-not_passed true e h = refl
raise_if-not_passed false e h = absurd (ground arith)
