-- ===== src/Adapters/SqliteStateStore/Append.antt =====
-- What `compare_and_append` writes for a prepared update of the stored checkpoint.
use mathlib.Core.Path.{subst}
use alicerce.Prelude.{
  ℕ, ◌+◌, ◌<◌, ◌≡◌, refl, sym, inl, inr, false, Option, some, List, [], ◌∷◌, ◌++◌, ◌==◌, eq_self,
  eq→path, ne→false, Text, Bytes, Bool-cases, arith, nat_eq, list_eq, length, All,
}
use alicerce.Errors.{ok}
use alicerce.DateTime.{DateTime}
use alicerce.Domain.Contracts.{FinalStates}
use alicerce.Domain.RunIdentity.{RunId, run_id_eq}
use alicerce.Domain.Lifecycle.{LifecycleState, LifecycleActor, LifecycleTransition}
use alicerce.Domain.Lifecycle.Advance.{Permits, advanced}
use alicerce.Domain.State.{RunCheckpoint, run_checkpoint_eq, next_checkpoint}
use alicerce.Domain.State.Updates.{initial_checkpoint, updated}
use alicerce.Ports.StateStore.{MemoryStore, write}
use alicerce.Adapters.StateCodec.{StateCodec}
use alicerce.Adapters.SqliteStateStore.Database.{
  Database, RunRow, TransitionRow, select_run, select_transitions, insert_transition,
  update_checkpoint, set_checkpoint,
}
use alicerce.Adapters.SqliteStateStore.Validation.{replay, validated_run}
use alicerce.Adapters.SqliteStateStore.Tables.{
  select_run-set_checkpoint_other, select_run-set_checkpoint_self, set_checkpoint-IsKeyed,
  count_rows-present, rows_of-other, select_transitions-above, has_revision-above,
}
use alicerce.Adapters.SqliteStateStore.Replay.{IsRead, replay-IsRead, replay-append, step_accepts}
use alicerce.Adapters.SqliteStateStore.Represents.{Represents, Shows, IsStored}
use alicerce.Adapters.SqliteStateStore.Initialize.{value_ne}
use alicerce.Adapters.SqliteStateStore.{append_body}

module _ ⦃canonical : FinalStates⦄ ⦃codec : StateCodec⦄ where
  -- The event and the next checkpoint have bytes, from which they read back.
  pub record IsAppendable (event : LifecycleTransition) (next : RunCheckpoint) : Type 0 where
    pub event_bytes : Bytes
    pub next_bytes : Bytes
    pub event_written : codec.serialize_transition event ≡ ok event_bytes
    pub next_written : codec.serialize_checkpoint next ≡ ok next_bytes
    pub event_fits : codec.TransitionFits event
    pub next_fits : codec.CheckpointFits next

  module _ (db : Database) (store : MemoryStore) (h : Represents db store) (c : RunCheckpoint)
      (target : LifecycleState) (at : DateTime) (actor : LifecycleActor) (f : Option Text)
      (p : Permits c.lifecycle target at f) (next : RunCheckpoint)
      (made : next_checkpoint (updated c target at actor f) ≡ ok next)
      (shape : next ≡ record {
        identity = c.identity;
        lifecycle = (advanced c.lifecycle target at actor f).lifecycle;
      })
      (w : IsAppendable (advanced c.lifecycle target at actor f).transition next) (row : RunRow)
      (events : List LifecycleTransition)
      (found : select_run c.identity.run_id.value db.runs ≡ some row)
      (stored : IsStored c.identity.run_id row
        (select_transitions c.identity.run_id.value db.transitions)
        c
        events) where
    abbrev key : Text
    key = c.identity.run_id.value

    abbrev event : LifecycleTransition
    event = (advanced c.lifecycle target at actor f).transition

    abbrev rows : List (ℕ × Bytes)
    rows = select_transitions key db.transitions

    abbrev event_row : TransitionRow
    event_row = record { run_id = key; revision = event.revision; transition = w.event_bytes }

    abbrev pub appended : Database
    appended = record {
      runs = set_checkpoint w.next_bytes key row.checkpoint db.runs;
      transitions = event_row ∷ db.transitions;
    }

    reading : IsRead c.identity (initial_checkpoint c.identity) 1 rows c
    reading =
        replay-IsRead c.identity (initial_checkpoint c.identity) c 1 rows events stored.replayed

    -- the new event has the first free revision
    next_revision : event.revision ≡ 1 + length rows
    unfolding advanced
    next_revision = omega (arith, reading.counted)

    positive : (event.revision == 0) ≡ false
    unfolding advanced
    positive = ne→false (c.lifecycle.revision + 1) 0 (omega arith)

    All-below : All (λ (r : ℕ × Bytes). r.0 < event.revision) rows
    All-below = rw next_revision reading.below

    insert_accepts :
        insert_transition event_row db
        ≡ (ok tt, record db { transitions = event_row ∷ db.transitions })
    unfolding insert_transition
    insert_accepts =
        rw (has_revision-above key event.revision db.transitions All-below, positive, found)

    update_counts :
        (d : Database)
        → d.runs ≡ db.runs
        → update_checkpoint w.next_bytes key row.checkpoint d
          ≡ (ok 1, record d { runs = set_checkpoint w.next_bytes key row.checkpoint db.runs })
    unfolding update_checkpoint
    update_counts d same =
        rw (same, count_rows-present w.next_bytes key row.checkpoint db.runs row h.keyed found refl)

    pub append_runs :
        validated_run c.identity.run_id db ≡ ok (some (c, events))
        → append_body (updated c target at actor f) db ≡ (ok next, appended)
    unfolding append_body
    append_runs read = ground (
      arith,
      eq_self c,
      eq_self {A = ℕ} 1,
      stored.written,
      insert_accepts,
      w.event_written,
      w.next_written,
      update_counts (record db { transitions = event_row ∷ db.transitions }) refl,
    )

    journal_replays :
        replay c.identity
          (initial_checkpoint c.identity)
          1
          (rows ++ (event.revision, w.event_bytes) ∷ [])
        ≡ ok (next, events ++ event ∷ [])
    unfolding next_checkpoint
    journal_replays =
        replay-append c.identity (initial_checkpoint c.identity) c next 1 rows events
          (event.revision, w.event_bytes) event stored.replayed
          (rw (← next_revision) (
            step_accepts c.identity c event.revision w.event_bytes next target at actor f p
              (codec.transition_round_trip event w.event_bytes w.event_fits w.event_written) made))

    next_IsStored :
        IsStored c.identity.run_id
          (record row { checkpoint = w.next_bytes })
          (rows ++ (event.revision, w.event_bytes) ∷ [])
          next
          (events ++ event ∷ [])
    next_IsStored =
        subst
          (λ n.
            (codec.deserialize_checkpoint w.next_bytes ≡ ok n)
            → (codec.serialize_checkpoint n ≡ ok w.next_bytes)
            → (replay c.identity (initial_checkpoint c.identity) 1
                  (rows ++ (event.revision, w.event_bytes) ∷ [])
                ≡ ok (n, events ++ event ∷ []))
            → IsStored c.identity.run_id (record row { checkpoint = w.next_bytes })
                (rows ++ (event.revision, w.event_bytes) ∷ []) n (events ++ event ∷ []))
          (sym shape)
          (λ read written replayed. record {
            identity = stored.identity;
            read = read;
            written = written;
            same_run = refl;
            time = stored.time;
            replayed = replayed;
          })
          (codec.checkpoint_round_trip next w.next_bytes w.next_fits w.next_written) w.next_written
          journal_replays

    abbrev Seen : RunId → Type 0
    Seen j =
        Shows j (select_run j.value appended.runs) (select_transitions j.value appended.transitions)
          (write c.identity.run_id (next, events ++ event ∷ []) store j)

    appended_self : Seen c.identity.run_id
    unfolding write
    appended_self =
        rw
          (
            eq_self c.identity.run_id,
            select_run-set_checkpoint_self w.next_bytes key row.checkpoint db.runs row found refl,
            select_transitions-above key event.revision w.event_bytes db.transitions All-below,
          )
          next_IsStored

    pub appended-Represents :
        Represents appended (write c.identity.run_id (next, events ++ event ∷ []) store)
    unfolding write
    appended-Represents = record {
      keyed = set_checkpoint-IsKeyed w.next_bytes key row.checkpoint db.runs h.keyed;
      shows = λ j. elim (Bool-cases (c.identity.run_id == j)) [
        | inl same ↦ subst Seen (eq→path c.identity.run_id j same) appended_self
        | inr other ↦
            rw
              (
                other,
                select_run-set_checkpoint_other w.next_bytes key row.checkpoint j.value db.runs
                    (value_ne c.identity.run_id j other),
                rows_of-other j.value event_row db.transitions (value_ne c.identity.run_id j other),
              )
              (h.shows j)
      ];
    }
