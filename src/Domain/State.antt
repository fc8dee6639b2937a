-- ===== src/Domain/State.antt =====
-- src/alicerce/domain/state.py: checkpoints, and the updates that a store may append.
pub mod Updates
pub mod Forged
use alicerce.Prelude.{
  ◌+◌, ◌≡◌, Bool, not, ◌||◌, ℕ_discrete, Option, Text, pos, Eq, ◌==◌, nat_eq, list_eq, option_eq,
}
use alicerce.Errors.{Result, ok, ◌>>=◌, ◌>>◌, raise_if, state_invariant_error, StateInvariantCause}
use alicerce.DateTime.{DateTime, before, datetime_eq}
use alicerce.Domain.Contracts.{FinalStates}
use alicerce.Domain.RunIdentity.{RunIdentity, run_id_eq}
use alicerce.Domain.Lifecycle.{
  LifecycleState, lifecycle_state_eq, LifecycleActor, LifecycleAdvance, RunLifecycle,
  advance_lifecycle, start_lifecycle,
}

pub record RunCheckpoint : Type 0 where
  pub identity : RunIdentity
  pub lifecycle : RunLifecycle

unfoldable pub RunCheckpoint-discrete : Discrete RunCheckpoint
unfolding ℕ_discrete
RunCheckpoint-discrete = hlevel ℕ_discrete

instance abbrev pub run_checkpoint_eq : Eq RunCheckpoint
run_checkpoint_eq = record { dec = RunCheckpoint-discrete }

-- `RunCheckpoint.__post_init__`
unfoldable pub new_run_checkpoint : RunIdentity → RunLifecycle → Result RunCheckpoint
new_run_checkpoint identity lifecycle = do
  raise_if (not (identity.run_id == lifecycle.run_id))
      (state_invariant_error StateInvariantCause.run_mismatch)
  raise_if (before lifecycle.updated_at identity.created_at)
      (state_invariant_error StateInvariantCause.time_regression)
  ok (record { identity = identity; lifecycle = lifecycle })

pub record StateUpdate : Type 0 where
  pub expected : RunCheckpoint
  pub advance : LifecycleAdvance

-- `StateUpdate.__post_init__`
unfoldable pub new_state_update : RunCheckpoint → LifecycleAdvance → Result StateUpdate
new_state_update expected advance = do
  let current = expected.lifecycle
  let updated = advance.lifecycle
  let event = advance.transition
  raise_if (not (current.run_id == updated.run_id) || not (current.run_id == event.run_id))
      (state_invariant_error StateInvariantCause.run_mismatch)
  raise_if
      (not (updated.revision == current.revision + 1) || not (event.revision == updated.revision))
      (state_invariant_error StateInvariantCause.revision_mismatch)
  raise_if (not (event.from_state == current.state) || not (event.to_state == updated.state))
      (state_invariant_error StateInvariantCause.state_mismatch)
  raise_if (before event.occurred_at current.updated_at)
      (state_invariant_error StateInvariantCause.time_regression)
  raise_if
      (not (event.occurred_at == updated.updated_at)
        || not (event.final_state == updated.final_state))
      (state_invariant_error StateInvariantCause.event_mismatch)
  ok (record { expected = expected; advance = advance })

-- `StateUpdate.next_checkpoint`
unfoldable pub next_checkpoint : StateUpdate → Result RunCheckpoint
next_checkpoint update = new_run_checkpoint update.expected.identity update.advance.lifecycle

module _ ⦃canonical : FinalStates⦄ where
  unfoldable pub create_initial_checkpoint : RunIdentity → Result RunCheckpoint
  create_initial_checkpoint identity = do
    lifecycle ← start_lifecycle identity
    new_run_checkpoint identity lifecycle

  unfoldable pub prepare_state_update :
      RunCheckpoint → LifecycleState → DateTime → LifecycleActor → Option Text → Result StateUpdate
  prepare_state_update current to_state occurred_at actor final_state = do
    advance ← advance_lifecycle current.lifecycle to_state occurred_at actor final_state
    new_state_update current advance
