-- ===== src/Adapters/SqliteStateStore/Initialize.antt =====
-- `SQLiteStateStore.initialize` implements the map's initialization.
use mathlib.Core.Path.{subst}
use alicerce.Prelude.{
  ℕ, ◌≡◌, ◌≢◌, refl, ap, ◌⊎◌, inl, inr, true, false, Option, none, some, List, [], ◌∷◌, ◌==◌,
  ==_iff, eq_self, eq→path, ne→false, Text, Bytes, Bool-cases, Option-cases, nat_eq, list_eq,
}
use alicerce.Errors.{Result, ok, err, state_store_error, StateStoreErrorCause}
use alicerce.DateTime.{is_utc}
use alicerce.Domain.Contracts.{FinalStates}
use alicerce.Domain.RunIdentity.{RunId, run_id_eq}
use alicerce.Domain.Lifecycle.{is_none}
use alicerce.Domain.State.{RunCheckpoint, run_checkpoint_eq}
use alicerce.Domain.State.Updates.{initial_checkpoint, create_initial_checkpoint-accepts}
use alicerce.Ports.StateStore.{Entry, MemoryStore, write, memory_initialize}
use alicerce.Adapters.StateCodec.{StateCodec}
use alicerce.Adapters.SqliteStateStore.Database.{
  Database, RunRow, select_run, select_transitions, insert_run, transaction-commit,
  transaction-rollback, storage_failure,
}
use alicerce.Adapters.SqliteStateStore.Validation.{replay}
use alicerce.Adapters.SqliteStateStore.Represents.{Represents, Shows, IsStored}
use alicerce.Adapters.SqliteStateStore.Refines.{Refines, Refines-ok, Refines-err}
use alicerce.Adapters.SqliteStateStore.{initialize_body, initialize}

-- Other runs have other keys.
pub value_ne : (run j : RunId) → (run == j) ≡ false → run.value ≢ j.value
value_ne run j h same =
    let path : run ≡ j = ap (λ (v : Text). let r : RunId = record { value = v } in r) same in
    cc ((==_iff run j).1 path)

select_run-cons_other :
    (key : Text) (row : RunRow) (rows : List RunRow)
    → row.run_id ≢ key
    → select_run key (row ∷ rows) ≡ select_run key rows
unfolding select_run
select_run-cons_other key row rows h = rw (ne→false row.run_id key h)

select_run-cons_self :
    (row : RunRow) (rows : List RunRow) → select_run row.run_id (row ∷ rows) ≡ some row
unfolding select_run
select_run-cons_self row rows = rw (eq_self row.run_id)

module _ ⦃canonical : FinalStates⦄ ⦃codec : StateCodec⦄ where
  -- A checkpoint and its identity have bytes, from which they read back.
  pub record IsWritable (c : RunCheckpoint) : Type 0 where
    pub identity_bytes : Bytes
    pub checkpoint_bytes : Bytes
    pub identity : codec.serialize_run_identity c.identity ≡ ok identity_bytes
    pub checkpoint : codec.serialize_checkpoint c ≡ ok checkpoint_bytes
    pub identity_fits : codec.IdentityFits c.identity
    pub checkpoint_fits : codec.CheckpointFits c

  abbrev new_row : (c : RunCheckpoint) → IsWritable c → RunRow
  new_row c w = record {
    run_id = c.identity.run_id.value;
    identity = w.identity_bytes;
    checkpoint = w.checkpoint_bytes;
  }

  module _ (db : Database) (store : MemoryStore) (c : RunCheckpoint) (w : IsWritable c)
      (h : Represents db store) where
    -- the row, its journal and the entry of `run`
    abbrev Seen : RunId → List RunRow → Option Entry → Type 0
    Seen j rows entry =
        Shows j (select_run j.value rows) (select_transitions j.value db.transitions) entry

    new_IsStored :
        c ≡ initial_checkpoint c.identity
        → is_utc c.identity.created_at ≡ true
        → IsStored c.identity.run_id (new_row c w) [] c []
    unfolding replay
    new_IsStored fresh utc = record {
      identity = codec.identity_round_trip c.identity w.identity_bytes w.identity_fits w.identity;
      read = codec.checkpoint_round_trip c w.checkpoint_bytes w.checkpoint_fits w.checkpoint;
      written = w.checkpoint;
      same_run = refl;
      time = utc;
      replayed = cc fresh;
    }

    absent_rows :
        (found : Option RunRow) (rows : List (ℕ × Bytes))
        → Shows c.identity.run_id found rows none
        → (found ≡ none) × (rows ≡ [])
    absent_rows none rows s = (refl, s)
    absent_rows (some row) rows s = absurd s

    present_row :
        (found : Option RunRow) (rows : List (ℕ × Bytes)) (entry : Entry)
        → Shows c.identity.run_id found rows (some entry)
        → is_none found ≡ false
    present_row none rows e s = absurd s
    present_row (some row) rows e s = refl

    inserted_self :
        store c.identity.run_id ≡ none
        → c ≡ initial_checkpoint c.identity
        → is_utc c.identity.created_at ≡ true
        → Seen c.identity.run_id
            (new_row c w ∷ db.runs)
            (write c.identity.run_id (c, []) store c.identity.run_id)
    unfolding write
    inserted_self free fresh utc =
        let run = c.identity.run_id in
        let (_, no_rows) =
          absent_rows (select_run run.value db.runs) (select_transitions run.value db.transitions)
            (rw free at (h.shows run)) in
        rw (eq_self run, select_run-cons_self (new_row c w) db.runs, no_rows)
          (new_IsStored fresh utc)

    inserted_other :
        (j : RunId)
        → (c.identity.run_id == j) ≡ false
        → Seen j (new_row c w ∷ db.runs) (write c.identity.run_id (c, []) store j)
    unfolding write
    inserted_other j other =
        rw
          (
            other,
            select_run-cons_other j.value (new_row c w) db.runs
                (value_ne c.identity.run_id j other),
          )
          (h.shows j)

    inserted_Represents :
        store c.identity.run_id ≡ none
        → c ≡ initial_checkpoint c.identity
        → is_utc c.identity.created_at ≡ true
        → Represents
            (record db { runs = new_row c w ∷ db.runs })
            (write c.identity.run_id (c, []) store)
    inserted_Represents free fresh utc = record {
      keyed = ((absent_rows _ _ (rw free at (h.shows c.identity.run_id))).0, h.keyed);
      shows = λ j. elim (Bool-cases (c.identity.run_id == j)) [
        | inl same ↦
            subst (λ k. Seen k (new_row c w ∷ db.runs) (write c.identity.run_id (c, []) store k))
              (eq→path c.identity.run_id j same) (inserted_self free fresh utc)
        | inr other ↦ inserted_other j other
      ];
    }

    taken_runs :
        (entry : Entry)
        → store c.identity.run_id ≡ some entry
        → is_none (select_run c.identity.run_id.value db.runs) ≡ false
    taken_runs entry taken = present_row _ _ entry (rw taken at (h.shows c.identity.run_id))

    free_runs : store c.identity.run_id ≡ none → select_run c.identity.run_id.value db.runs ≡ none
    free_runs free = (absent_rows _ _ (rw free at (h.shows c.identity.run_id))).0

    initialize_free :
        select_run c.identity.run_id.value db.runs ≡ none
        → initialize_body c db ≡ (ok tt, record db { runs = new_row c w ∷ db.runs })
    unfolding initialize_body insert_run
    initialize_free free = rw (free, w.identity, w.checkpoint, free)

    initialize_taken :
        is_none (select_run c.identity.run_id.value db.runs) ≡ false
        → initialize_body c db ≡ (err (state_store_error StateStoreErrorCause.already_exists), db)
    unfolding initialize_body
    initialize_taken taken = rw taken

    -- Where the store and the map part: the run is there, the checkpoint is not the initial one, and
    -- the store raises CONFLICT, where the map says ALREADY_EXISTS; both stay as they were.
    pub record Differs : Type 0 where
      pub entry : Entry
      pub stored : store c.identity.run_id ≡ some entry
      pub not_initial : c ≢ initial_checkpoint c.identity
      pub conflict : initialize c db ≡ (err (state_store_error StateStoreErrorCause.conflict), db)
      pub exists :
          memory_initialize c store ≡ err (state_store_error StateStoreErrorCause.already_exists)

    refused_conflict :
        is_utc c.identity.created_at ≡ true
        → (c == initial_checkpoint c.identity) ≡ false
        → initialize c db ≡ (err (state_store_error StateStoreErrorCause.conflict), db)
    unfolding initialize storage_failure
    refused_conflict utc other = rw (create_initial_checkpoint-accepts c.identity utc, other)

    refused_exists :
        (entry : Entry)
        → store c.identity.run_id ≡ some entry
        → memory_initialize c store ≡ err (state_store_error StateStoreErrorCause.already_exists)
    unfolding memory_initialize
    refused_exists entry taken = rw taken

    taken_outcome :
        (entry : Entry)
        → is_utc c.identity.created_at ≡ true
        → (c == initial_checkpoint c.identity) ≡ true
        → store c.identity.run_id ≡ some entry
        → initialize c db ≡ (err (state_store_error StateStoreErrorCause.already_exists), db)
    unfolding initialize storage_failure
    taken_outcome entry utc fresh taken =
        rw (create_initial_checkpoint-accepts c.identity utc, fresh)
          (transaction-rollback (initialize_body c) db
            (state_store_error StateStoreErrorCause.already_exists)
            (ap (λ (x : Result (Unit {0}) × Database). x.0)
              (initialize_taken (taken_runs entry taken))))

    of_taken :
        (entry : Entry)
        → is_utc c.identity.created_at ≡ true
        → store c.identity.run_id ≡ some entry
        → Refines db (memory_initialize c store) (initialize c db) ⊎ Differs
    of_taken entry utc taken = elim (Bool-cases (c == initial_checkpoint c.identity)) [
      | inl fresh ↦ inl (
          Refines-err db (state_store_error StateStoreErrorCause.already_exists)
            (refused_exists entry taken) (taken_outcome entry utc fresh taken))
      | inr other ↦ inr (record {
        entry = entry;
        stored = taken;
        not_initial = λ same. cc (other, (==_iff c (initial_checkpoint c.identity)).1 same);
        conflict = refused_conflict utc other;
        exists = refused_exists entry taken;
      })
    ]

    of_free :
        is_utc c.identity.created_at ≡ true
        → store c.identity.run_id ≡ none
        → Refines db (memory_initialize c store) (initialize c db)
    unfolding memory_initialize initialize storage_failure
    of_free utc free =
        let start = create_initial_checkpoint-accepts c.identity utc in
        elim (Bool-cases (c == initial_checkpoint c.identity)) [
          | inr other ↦
              Refines-err db (state_store_error StateStoreErrorCause.conflict)
                (rw (free, start, other)) (refused_conflict utc other)
          | inl fresh ↦
              Refines-ok db (record db { runs = new_row c w ∷ db.runs }) tt
                (write c.identity.run_id (c, []) store) (rw (free, start, fresh))
                (rw (start, fresh)
                  (transaction-commit (initialize_body c) db (initialize_free (free_runs free))))
                (inserted_Represents free (eq→path c (initial_checkpoint c.identity) fresh) utc)
        ]

    -- On a database that represents a map, the store has the map's outcome: a run that is there
    -- ALREADY_EXISTS, a checkpoint that is not initial is a CONFLICT, both with the database
    -- unchanged, and else the run is written. They differ only where both flaws meet: there the
    -- store raises CONFLICT.
    pub initialize-Refines :
        is_utc c.identity.created_at ≡ true
        → Refines db (memory_initialize c store) (initialize c db) ⊎ Differs
    initialize-Refines utc = elim (Option-cases (store c.identity.run_id)) [
      | inl free ↦ inl (of_free utc free)
      | inr (entry, taken) ↦ of_taken entry utc taken
    ]
