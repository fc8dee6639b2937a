-- ===== src/Domain/Lifecycle.antt =====
-- src/alicerce/domain/lifecycle.py: the lifecycle of a run and its monotonic policy.
pub mod States
pub mod Advance
pub mod Refusal
pub mod Reach
pub use States.{
  LifecycleState, contract_bound, workspace_prepared, building, verifying, deciding, review_pending,
  completed, lifecycle_state_eq,
}
unfoldable pub use States.{LifecycleState-discrete, is_completed, allowed_next}
use alicerce.Prelude.{
  ℕ, ◌+◌, ◌≡◌, Bool, true, false, not, ◌&&◌, ◌||◌, ℕ_discrete, Option, none, some, List, [], ◌∷◌, ℤ,
  pos, negsuc, Eq, ◌==◌, elem, Text, nat_eq, list_eq, option_eq, if◌then◌else◌,
}
use alicerce.Errors.{
  Result, ok, err, ◌>>=◌, ◌>>◌, raise_if, value_error, type_error, lifecycle_error,
  LifecycleErrorCause,
}
use alicerce.DateTime.{DateTime, is_utc, before, datetime_eq}
use alicerce.Domain.Patterns.{component_pattern}
use alicerce.Domain.Contracts.{FinalStates}
use alicerce.Domain.RunIdentity.{RunId, RunIdentity, run_id_eq}

pub record LifecycleActor : Type 0 where
  pub value : Text

unfoldable pub new_lifecycle_actor : Text → Result LifecycleActor
new_lifecycle_actor t = do
  raise_if (not (component_pattern t)) value_error
  ok (record { value = t })

unfoldable pub require_utc : DateTime → Result DateTime
require_utc instant = do raise_if (not (is_utc instant)) value_error; ok instant

unfoldable pub require_revision : ℤ → Result ℕ
require_revision (pos n) = ok n
require_revision (negsuc _) = err value_error

pub record RunLifecycle : Type 0 where
  pub run_id : RunId
  pub state : LifecycleState
  pub revision : ℕ
  pub updated_at : DateTime
  pub final_state : Option Text

pub record LifecycleTransition : Type 0 where
  pub run_id : RunId
  pub revision : ℕ
  pub from_state : LifecycleState
  pub to_state : LifecycleState
  pub occurred_at : DateTime
  pub actor : LifecycleActor
  pub final_state : Option Text

pub record LifecycleAdvance : Type 0 where
  pub lifecycle : RunLifecycle
  pub transition : LifecycleTransition

abbrev pub is_none {ℓ} : {A : Type ℓ} → Option A → Bool
is_none none = true
is_none (some _) = false

module _ ⦃canonical : FinalStates⦄ where
  unfoldable pub require_final_state : Text → Result Text
  require_final_state value = do raise_if (not (elem value canonical.values)) type_error; ok value

  -- The end of both `__post_init__`s: a final state is there exactly for COMPLETED.
  unfoldable pub require_terminal_consistency : LifecycleState → Option Text → Result (Unit {0})
  unfolding require_final_state
  require_terminal_consistency state none =
      raise_if (is_completed state) (lifecycle_error LifecycleErrorCause.final_state_required)
  require_terminal_consistency state (some value) =
      if is_completed state
      then (do require_final_state value; ok tt)
      else err (lifecycle_error LifecycleErrorCause.final_state_forbidden)

  -- `RunLifecycle.__post_init__`
  unfoldable pub new_run_lifecycle :
      RunId → LifecycleState → ℤ → DateTime → Option Text → Result RunLifecycle
  unfolding require_revision require_utc require_terminal_consistency
  new_run_lifecycle run state revision updated_at final_state = do
    number ← require_revision revision
    instant ← require_utc updated_at
    require_terminal_consistency state final_state
    ok (record {
      run_id = run;
      state = state;
      revision = number;
      updated_at = instant;
      final_state = final_state;
    })

  -- `LifecycleTransition.__post_init__`
  unfoldable pub new_lifecycle_transition :
      RunId
      → ℤ
      → LifecycleState
      → LifecycleState
      → DateTime
      → LifecycleActor
      → Option Text
      → Result LifecycleTransition
  unfolding require_revision require_utc require_terminal_consistency
  new_lifecycle_transition run revision from_state to_state occurred_at actor final_state = do
    number ← require_revision revision
    instant ← require_utc occurred_at
    require_terminal_consistency to_state final_state
    ok (record {
      run_id = run;
      revision = number;
      from_state = from_state;
      to_state = to_state;
      occurred_at = instant;
      actor = actor;
      final_state = final_state;
    })

  unfoldable pub start_lifecycle : RunIdentity → Result RunLifecycle
  unfolding new_run_lifecycle
  start_lifecycle identity =
      new_run_lifecycle identity.run_id contract_bound (pos 0) identity.created_at none

  -- `if final_state is not None: _require_final_state(final_state)`
  unfoldable pub require_optional_final_state : Option Text → Result (Unit {0})
  unfolding require_final_state
  require_optional_final_state none = ok tt
  require_optional_final_state (some value) = do require_final_state value; ok tt

  unfoldable pub advance_lifecycle :
      RunLifecycle
      → LifecycleState
      → DateTime
      → LifecycleActor
      → Option Text
      → Result LifecycleAdvance
  unfolding require_utc require_optional_final_state new_lifecycle_transition new_run_lifecycle
  advance_lifecycle current target occurred_at actor final_state = do
    instant ← require_utc occurred_at
    raise_if (is_completed current.state) (lifecycle_error LifecycleErrorCause.terminal_state)
    raise_if (not (elem target (allowed_next current.state)))
        (lifecycle_error LifecycleErrorCause.invalid_transition)
    raise_if (before instant current.updated_at)
        (lifecycle_error LifecycleErrorCause.time_regression)
    raise_if (is_completed target && is_none final_state)
        (lifecycle_error LifecycleErrorCause.final_state_required)
    raise_if (not (is_completed target) && not (is_none final_state))
        (lifecycle_error LifecycleErrorCause.final_state_forbidden)
    require_optional_final_state final_state
    let revision = pos (current.revision + 1)
    transition ←
        new_lifecycle_transition current.run_id revision current.state target instant actor
          final_state
    updated ← new_run_lifecycle current.run_id target revision instant final_state
    ok (record { lifecycle = updated; transition = transition })

unfoldable pub LifecycleActor-discrete : Discrete LifecycleActor
unfolding ℕ_discrete
LifecycleActor-discrete = hlevel ℕ_discrete

unfoldable pub RunLifecycle-discrete : Discrete RunLifecycle
unfolding ℕ_discrete
RunLifecycle-discrete = hlevel ℕ_discrete

instance abbrev pub run_lifecycle_eq : Eq RunLifecycle
run_lifecycle_eq = record { dec = RunLifecycle-discrete }

unfoldable pub LifecycleTransition-discrete : Discrete LifecycleTransition
unfolding ℕ_discrete
LifecycleTransition-discrete = hlevel ℕ_discrete

instance abbrev pub lifecycle_transition_eq : Eq LifecycleTransition
lifecycle_transition_eq = record { dec = LifecycleTransition-discrete }
