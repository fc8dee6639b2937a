-- ===== src/Adapters/SqliteStateStore/CompareAndAppend.antt =====
-- `SQLiteStateStore.compare_and_append` implements the map's compare-and-append.
use mathlib.Core.Path.{subst}
use alicerce.Prelude.{
  ℕ, ◌≡◌, refl, sym, ap, ◌∙◌, inl, inr, false, Option, none, some, List, [], ◌∷◌, ◌++◌, ◌==◌,
  eq_self, eq→path, Text, Bytes, Bool-cases, Option-cases, arith,
}
use alicerce.Errors.{Result, ok, err, state_store_error, StateStoreErrorCause}
use alicerce.DateTime.{DateTime}
use alicerce.Domain.Contracts.{FinalStates}
use alicerce.Domain.RunIdentity.{RunId, run_id_eq}
use alicerce.Domain.Lifecycle.{LifecycleState, LifecycleActor, LifecycleTransition}
use alicerce.Domain.Lifecycle.Advance.{Permits, advanced}
use alicerce.Domain.State.{
  RunCheckpoint, run_checkpoint_eq, StateUpdate, next_checkpoint, prepare_state_update,
}
use alicerce.Domain.State.Updates.{updated, prepare_state_update_sound, new_run_checkpoint_sound}
use alicerce.Ports.StateStore.{MemoryStore, write, memory_compare_and_append}
use alicerce.Adapters.StateCodec.{StateCodec}
use alicerce.Adapters.SqliteStateStore.Database.{
  Database, RunRow, select_run, select_transitions, transaction-commit, transaction-rollback,
  storage_failure,
}
use alicerce.Adapters.SqliteStateStore.Validation.{validated_run}
use alicerce.Adapters.SqliteStateStore.Represents.{
  Represents, Shows, IsStored, validated_run-Represents,
}
use alicerce.Adapters.SqliteStateStore.Refines.{Refines, Refines-ok, Refines-err}
use alicerce.Adapters.SqliteStateStore.Append.{
  IsAppendable, appended, append_runs, appended-Represents,
}
use alicerce.Adapters.SqliteStateStore.{append_body, compare_and_append}

module _ ⦃canonical : FinalStates⦄ ⦃codec : StateCodec⦄ where
  -- the row of a run that the map has
  shown_row :
      (run : RunId) (found : Option RunRow) (rows : List (ℕ × Bytes)) (c : RunCheckpoint)
      (events : List LifecycleTransition)
      → Shows run found rows (some (c, events))
      → (row : RunRow) × (found ≡ some row) × IsStored run row rows c events
  shown_row run (some row) rows c events s = (row, refl, s)
  shown_row run none rows c events s = absurd s

  module _ (db : Database) (u : StateUpdate) where
    append_missing :
        validated_run u.expected.identity.run_id db ≡ ok none
        → append_body u db ≡ (err (state_store_error StateStoreErrorCause.not_found), db)
    unfolding append_body
    append_missing read = ground arith

    append_conflict :
        (current : RunCheckpoint) (events : List LifecycleTransition)
        → validated_run u.expected.identity.run_id db ≡ ok (some (current, events))
        → (current == u.expected) ≡ false
        → append_body u db ≡ (err (state_store_error StateStoreErrorCause.conflict), db)
    unfolding append_body
    append_conflict current events read other = ground arith

  abort :
      (db : Database) (u : StateUpdate) (cause : StateStoreErrorCause)
      → append_body u db ≡ (err (state_store_error cause), db)
      → compare_and_append u db ≡ (err (state_store_error cause), db)
  unfolding compare_and_append storage_failure
  abort db u cause h =
      transaction-rollback (append_body u) db (state_store_error cause)
        (ap (λ (x : Result RunCheckpoint × Database). x.0) h)

  module _ (db : Database) (store : MemoryStore) (h : Represents db store) (c : RunCheckpoint)
      (target : LifecycleState) (at : DateTime) (actor : LifecycleActor) (f : Option Text)
      (p : Permits c.lifecycle target at f) (next : RunCheckpoint)
      (made : next_checkpoint (updated c target at actor f) ≡ ok next)
      (w : IsAppendable (advanced c.lifecycle target at actor f).transition next) where
    abbrev u : StateUpdate
    u = updated c target at actor f

    on_match :
        (events : List LifecycleTransition)
        → store c.identity.run_id ≡ some (c, events)
        → Refines db (memory_compare_and_append u store) (compare_and_append u db)
    unfolding memory_compare_and_append compare_and_append next_checkpoint
    on_match events there =
        let run = c.identity.run_id in
        let (row, found, stored) =
          shown_row run (select_run run.value db.runs) (select_transitions run.value db.transitions)
            c events (rw there at (h.shows run)) in
        let (shape, _, _) = new_run_checkpoint_sound c.identity _ made in
        let read : validated_run run db ≡ ok (some (c, events)) =
          validated_run-Represents db store run h ∙ ap ok there in
        Refines-ok db
          (appended db store h c target at actor f p next made shape w row events found stored) next
          (write run (next, events ++ u.advance.transition ∷ []) store)
          (rw (there, eq_self c, made))
          (transaction-commit (append_body u) db (
            append_runs db store h c target at actor f p next made shape w row events found stored
              read))
          (appended-Represents db store h c target at actor f p next made shape w row events found
            stored)

    updated-Refines : Refines db (memory_compare_and_append u store) (compare_and_append u db)
    unfolding memory_compare_and_append
    updated-Refines =
        let run = c.identity.run_id in
        let read : validated_run run db ≡ ok (store run) =
          validated_run-Represents db store run h in
        elim (Option-cases (store run)) [
          | inl missing ↦
              Refines-err db (state_store_error StateStoreErrorCause.not_found) (rw missing) (
                abort db u StateStoreErrorCause.not_found
                  (append_missing db u (read ∙ ap ok missing)))
          | inr ((current, events), there) ↦ elim (Bool-cases (current == c)) [
            | inl same ↦
                on_match events (there ∙ ap (λ x. some (x, events)) (eq→path current c same))
            | inr other ↦
                Refines-err db (state_store_error StateStoreErrorCause.conflict) (rw (there, other))
                  (abort db u StateStoreErrorCause.conflict
                    (append_conflict db u current events (read ∙ ap ok there) other))
          ]
        ]

  -- On a database that represents a map, a prepared update whose event and next checkpoint can be
  -- written has the map's outcome: NOT_FOUND for an unknown run, CONFLICT where the stored checkpoint
  -- is not the expected one, both with the database unchanged; else the next checkpoint, and a
  -- database that represents the map with that checkpoint and the event at the end of the history.
  pub compare_and_append-Refines :
      (db : Database) (store : MemoryStore) (c : RunCheckpoint) (target : LifecycleState)
      (at : DateTime) (actor : LifecycleActor) (f : Option Text) (u : StateUpdate)
      (next : RunCheckpoint)
      → Represents db store
      → prepare_state_update c target at actor f ≡ ok u
      → next_checkpoint u ≡ ok next
      → IsAppendable u.advance.transition next
      → Refines db (memory_compare_and_append u store) (compare_and_append u db)
  compare_and_append-Refines db store c target at actor f u next h prepared made w =
      let (p, same) = prepare_state_update_sound c target at actor f prepared in
      subst
        (λ v.
          next_checkpoint v ≡ ok next
          → IsAppendable v.advance.transition next
          → Refines db (memory_compare_and_append v store) (compare_and_append v db))
        (sym same) (λ m x. updated-Refines db store h c target at actor f p next m x) made w
