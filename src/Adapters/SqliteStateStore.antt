-- ===== src/Adapters/SqliteStateStore.antt =====
-- src/alicerce/adapters/local/sqlite_state_store.py: the operations of `SQLiteStateStore`.
-- The connection is the database; a failure of the engine itself (a lock, a full disk) is not
-- modelled, the violation of a constraint is.
pub mod Database
pub mod Validation
pub mod Tables
pub mod Replay
pub mod Represents
pub mod Refines
pub mod Initialize
pub mod Append
pub mod CompareAndAppend
pub mod Operations
use alicerce.Prelude.{◌+◌, ◌≡◌, Bool, not, Option, none, some, List, [], ◌∷◌, ◌==◌, nat_eq}
use alicerce.Errors.{Result, ok, raise_if, or_raise, state_store_error, StateStoreErrorCause}
use alicerce.Domain.Contracts.{FinalStates}
use alicerce.Domain.RunIdentity.{RunId}
use alicerce.Domain.Lifecycle.{LifecycleTransition, is_none}
use alicerce.Domain.State.{
  RunCheckpoint, run_checkpoint_eq, StateUpdate, next_checkpoint, create_initial_checkpoint,
}
use alicerce.Adapters.StateCodec.{StateCodec}
use Database.{
  Tx, ◌>>=◌, ◌>>◌, lift, gets, transaction, select_run, insert_run, insert_transition,
  update_checkpoint,
}
use Validation.{validated_run}

module _ ⦃canonical : FinalStates⦄ ⦃codec : StateCodec⦄ where
  unfoldable pub initialize_body : RunCheckpoint → Tx (Unit {0})
  initialize_body trusted = do
    existing ← gets (λ db. ok (select_run trusted.identity.run_id.value db.runs))
    lift (raise_if (not (is_none existing)) (state_store_error StateStoreErrorCause.already_exists))
    identity ← lift (codec.serialize_run_identity trusted.identity)
    checkpoint ← lift (codec.serialize_checkpoint trusted)
    insert_run (record {
      run_id = trusted.identity.run_id.value;
      identity = identity;
      checkpoint = checkpoint;
    })

  unfoldable pub initialize : RunCheckpoint → Tx (Unit {0})
  unfolding initialize_body
  initialize trusted = do
    initial ← lift (create_initial_checkpoint trusted.identity)
    lift (raise_if (not (trusted == initial)) (state_store_error StateStoreErrorCause.conflict))
    transaction (initialize_body trusted)

  unfoldable pub load : RunId → Tx (Option RunCheckpoint)
  load run = do
    validated ← gets (validated_run run)
    lift (ok (elim validated [ none ↦ none | some (checkpoint, _) ↦ some checkpoint ]))

  unfoldable pub append_body : StateUpdate → Tx RunCheckpoint
  append_body trusted = do
    let run = trusted.expected.identity.run_id
    validated ← gets (validated_run run)
    (current, _) ← lift (or_raise validated (state_store_error StateStoreErrorCause.not_found))
    lift (
        raise_if (not (current == trusted.expected))
          (state_store_error StateStoreErrorCause.conflict))
    expected_bytes ← lift (codec.serialize_checkpoint trusted.expected)
    next ← lift (next_checkpoint trusted)
    event ← lift (codec.serialize_transition trusted.advance.transition)
    insert_transition (record {
      run_id = run.value;
      revision = trusted.advance.transition.revision;
      transition = event;
    })
    next_bytes ← lift (codec.serialize_checkpoint next)
    rowcount ← update_checkpoint next_bytes run.value expected_bytes
    lift (raise_if (not (rowcount == 1)) (state_store_error StateStoreErrorCause.conflict))
    lift (ok next)

  unfoldable pub compare_and_append : StateUpdate → Tx RunCheckpoint
  unfolding append_body
  compare_and_append trusted = transaction (append_body trusted)

  unfoldable pub history : RunId → Tx (List LifecycleTransition)
  history run = do
    validated ← gets (validated_run run)
    (_, events) ← lift (or_raise validated (state_store_error StateStoreErrorCause.not_found))
    lift (ok events)
