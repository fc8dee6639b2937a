-- ===== src/Adapters/SqliteStateStore/Represents.antt =====
-- When a database holds the entries of a map from runs to checkpoints and histories.
use alicerce.Prelude.{ℕ, ◌≡◌, refl, true, Option, none, some, List, [], ==_iff, eq_self, Bytes}
use alicerce.Errors.{ok}
use alicerce.DateTime.{is_utc}
use alicerce.Domain.Contracts.{FinalStates}
use alicerce.Domain.RunIdentity.{RunId, run_id_eq, run_identity_eq}
use alicerce.Domain.Lifecycle.{LifecycleTransition}
use alicerce.Domain.State.{RunCheckpoint, run_checkpoint_eq}
use alicerce.Domain.State.Updates.{initial_checkpoint, create_initial_checkpoint-accepts}
use alicerce.Ports.StateStore.{Entry, MemoryStore}
use alicerce.Adapters.StateCodec.{StateCodec}
use alicerce.Adapters.SqliteStateStore.Database.{Database, RunRow, select_run, select_transitions}
use alicerce.Adapters.SqliteStateStore.Validation.{replay, read_run, validated_run}
use alicerce.Adapters.SqliteStateStore.Tables.{IsKeyed}

module _ ⦃canonical : FinalStates⦄ ⦃codec : StateCodec⦄ where
  -- The row and the journal of a run hold a checkpoint and the events that lead to it.
  pub record IsStored (run : RunId) (row : RunRow) (rows : List (ℕ × Bytes)) (c : RunCheckpoint)
      (events : List LifecycleTransition) : Type 0 where
    pub identity : codec.deserialize_run_identity row.identity ≡ ok c.identity
    pub read : codec.deserialize_checkpoint row.checkpoint ≡ ok c
    pub written : codec.serialize_checkpoint c ≡ ok row.checkpoint
    pub same_run : c.identity.run_id ≡ run
    pub time : is_utc c.identity.created_at ≡ true
    pub replayed : replay c.identity (initial_checkpoint c.identity) 1 rows ≡ ok (c, events)

  abbrev pub Shows : RunId → Option RunRow → List (ℕ × Bytes) → Option Entry → Type 0
  Shows run none rows none = rows ≡ []
  Shows run (some row) rows (some (c, events)) = IsStored run row rows c events
  Shows run _ rows _ = ⊥

  pub record Represents (db : Database) (store : MemoryStore) : Type 0 where
    pub keyed : IsKeyed db.runs
    pub shows :
        (run : RunId)
        → Shows run
            (select_run run.value db.runs)
            (select_transitions run.value db.transitions)
            (store run)

  read_run-IsStored :
      (run : RunId) (row : RunRow) (rows : List (ℕ × Bytes)) (c : RunCheckpoint)
      (events : List LifecycleTransition)
      → IsStored run row rows c events
      → read_run run row rows ≡ ok (c, events)
  unfolding read_run
  read_run-IsStored run row rows c events h = rw (
    h.identity,
    h.read,
    eq_self c.identity,
    (==_iff c.identity.run_id run).1 h.same_run,
    create_initial_checkpoint-accepts c.identity h.time,
    h.replayed,
    eq_self c,
  )

  validated-Shows :
      (run : RunId) (db : Database) (found : Option RunRow) (entry : Option Entry)
      → select_run run.value db.runs ≡ found
      → Shows run found (select_transitions run.value db.transitions) entry
      → validated_run run db ≡ ok entry
  unfolding validated_run
  validated-Shows run db none none e h = rw (e, validated_run)
  validated-Shows run db (some row) (some (c, events)) e h = rw (
    e,
    validated_run,
    read_run-IsStored run row (select_transitions run.value db.transitions) c events h,
  )
  validated-Shows run db none (some entry) e h = absurd h
  validated-Shows run db (some row) none e h = absurd h

  -- Reading a run of a sound database validates its whole history and returns its entry.
  pub validated_run-Represents :
      (db : Database) (store : MemoryStore) (run : RunId)
      → Represents db store
      → validated_run run db ≡ ok (store run)
  validated_run-Represents db store run h =
      validated-Shows run db (select_run run.value db.runs) (store run) refl (h.shows run)
