-- ===== src/Adapters/SqliteStateStore/Validation.antt =====
-- `SQLiteStateStore._validated_run`: reading one run and replaying its journal.
use alicerce.Prelude.{
  ℕ, suc, not, ◌||◌, Option, none, some, List, [], ◌∷◌, ◌==◌, nat_eq, Bytes, if◌then◌else◌,
}
use alicerce.Errors.{
  Exn, Result, ok, err, ◌>>=◌, ◌>>◌, raise_if, is_type_or_value_error, state_store_error,
  StateStoreErrorCause,
}
use alicerce.Domain.Contracts.{FinalStates}
use alicerce.Domain.RunIdentity.{RunId, RunIdentity, run_id_eq, run_identity_eq}
use alicerce.Domain.Lifecycle.{LifecycleTransition, lifecycle_transition_eq, advance_lifecycle}
use alicerce.Domain.State.{
  RunCheckpoint, run_checkpoint_eq, new_run_checkpoint, create_initial_checkpoint,
}
use alicerce.Adapters.StateCodec.{StateCodec}
use alicerce.Adapters.SqliteStateStore.Database.{Database, RunRow, select_run, select_transitions}

abbrev pub corrupt : Exn
corrupt = state_store_error StateStoreErrorCause.corrupt

-- `except StateStoreError: raise` and `except (StateSerializationError, TypeError, ValueError)`.
unfoldable pub corrupt_if_invalid {ℓ} : {A : Type ℓ} → Result A → Result A
unfolding is_type_or_value_error
corrupt_if_invalid (ok a) = ok a
corrupt_if_invalid (err e) = err (if is_type_or_value_error e then corrupt else e)

module _ ⦃canonical : FinalStates⦄ ⦃codec : StateCodec⦄ where
  -- The body of the loop over the journal, at one expected revision.
  unfoldable pub replay_step :
      RunIdentity → RunCheckpoint → ℕ → ℕ × Bytes → Result (RunCheckpoint × LifecycleTransition)
  replay_step identity checkpoint expected_revision (revision, blob) = do
    raise_if (not (revision == expected_revision)) corrupt
    event ← codec.deserialize_transition blob
    generated ←
        advance_lifecycle checkpoint.lifecycle event.to_state event.occurred_at event.actor
          event.final_state
    raise_if (not (generated.transition == event)) corrupt
    next ← new_run_checkpoint identity generated.lifecycle
    ok (next, event)

  unfoldable pub replay :
      RunIdentity
      → RunCheckpoint
      → ℕ
      → List (ℕ × Bytes)
      → Result (RunCheckpoint × List LifecycleTransition)
  replay identity checkpoint n [] = ok (checkpoint, [])
  replay identity checkpoint n (row ∷ rows) = do
    (next, event) ← replay_step identity checkpoint n row
    (last, events) ← replay identity next (suc n) rows
    ok (last, event ∷ events)

  unfoldable pub read_run :
      RunId → RunRow → List (ℕ × Bytes) → Result (RunCheckpoint × List LifecycleTransition)
  read_run run row rows = do
    identity ← codec.deserialize_run_identity row.identity
    stored ← codec.deserialize_checkpoint row.checkpoint
    raise_if (not (identity == stored.identity) || not (identity.run_id == run)) corrupt
    checkpoint ← create_initial_checkpoint identity
    (last, events) ← replay identity checkpoint 1 rows
    raise_if (not (last == stored)) corrupt
    ok (last, events)

  unfoldable pub validated_run :
      RunId → Database → Result (Option (RunCheckpoint × List LifecycleTransition))
  unfolding corrupt_if_invalid read_run
  validated_run run db = elim (select_run run.value db.runs) [
    | none ↦ ok none
    | some row ↦
        corrupt_if_invalid (do
          found ← read_run run row (select_transitions run.value db.transitions)
          ok (some found))
  ]
