-- ===== src/Adapters/SqliteStateStore/Operations.antt =====
-- The databases that the store's own operations lead to, from the empty one.
use mathlib.Core.Path.{subst, subst₂}
use alicerce.Prelude.{sorted, ◌≡◌, refl, sym, ◌⊎◌, inl, inr, true, Option, none, [], Text}
use alicerce.Errors.{Result, ok, err}
use alicerce.DateTime.{DateTime, is_utc}
use alicerce.Domain.Contracts.{FinalStates}
use alicerce.Domain.RunIdentity.{RunId}
use alicerce.Domain.Lifecycle.{LifecycleState, LifecycleActor}
use alicerce.Domain.State.{RunCheckpoint, StateUpdate, next_checkpoint, prepare_state_update}
use alicerce.Ports.StateStore.{
  MemoryStore, memory_initialize, memory_load, memory_compare_and_append, memory_history,
}
use alicerce.Adapters.StateCodec.{StateCodec}
use alicerce.Adapters.SqliteStateStore.Database.{Database, select_run, select_transitions, rows_of}
use alicerce.Adapters.SqliteStateStore.Represents.{Represents}
use alicerce.Adapters.SqliteStateStore.Refines.{Refines, load-Represents, history-Represents}
use alicerce.Adapters.SqliteStateStore.Initialize.{IsWritable, Differs, initialize-Refines}
use alicerce.Adapters.SqliteStateStore.Append.{IsAppendable}
use alicerce.Adapters.SqliteStateStore.CompareAndAppend.{compare_and_append-Refines}
use alicerce.Adapters.SqliteStateStore.{initialize, load, compare_and_append, history}

abbrev pub empty_database : Database
empty_database = record { runs = []; transitions = [] }

abbrev pub empty_store : MemoryStore
empty_store run = none

-- the map after an operation, the same as before if it raised
abbrev pub after {ℓ} : {A : Type ℓ} → MemoryStore → Result (A × MemoryStore) → MemoryStore
after store (ok (_, next)) = next
after store (err _) = store

module _ ⦃canonical : FinalStates⦄ ⦃codec : StateCodec⦄ where
  -- Calls of `initialize` and `compare_and_append`, whether they succeed or raise, with what the map
  -- does at each. The updates are prepared ones, and what is written reads back.
  pub data Reaches : Database → MemoryStore → Type 1 where
    created : Reaches empty_database empty_store
    initialized :
        {db : Database} {store : MemoryStore} (c : RunCheckpoint)
        → Reaches db store
        → IsWritable c
        → is_utc c.identity.created_at ≡ true
        → Reaches (initialize c db).1 (after store (memory_initialize c store))
    appended :
        {db : Database} {store : MemoryStore} (c : RunCheckpoint) (target : LifecycleState)
        (at : DateTime) (actor : LifecycleActor) (f : Option Text) (u : StateUpdate)
        (next : RunCheckpoint)
        → Reaches db store
        → prepare_state_update c target at actor f ≡ ok u
        → next_checkpoint u ≡ ok next
        → IsAppendable u.advance.transition next
        → Reaches (compare_and_append u db).1 (after store (memory_compare_and_append u store))

  pub empty-Represents : Represents empty_database empty_store
  unfolding select_run select_transitions rows_of sorted
  empty-Represents = record { keyed = tt; shows = λ run. refl }

  Refines-Represents :
      {A : Type 0} (db : Database) (store : MemoryStore) (expected : Result (A × MemoryStore))
      (r : Result A) (db' : Database)
      → Represents db store
      → Refines db expected (r, db')
      → Represents db' (after store expected)
  Refines-Represents db store (ok (a, next)) r db' h (_, g) = g
  Refines-Represents db store (err e) r db' h (_, same) =
      subst (λ d. Represents d store) (sym same) h

  -- Where the store and the map differ in the exception, neither has changed.
  initialized_Represents :
      (db : Database) (store : MemoryStore) (c : RunCheckpoint) (w : IsWritable c)
      (h : Represents db store)
      → Refines db (memory_initialize c store) (initialize c db) ⊎ Differs db store c w h
      → Represents (initialize c db).1 (after store (memory_initialize c store))
  initialized_Represents db store c w h (inl refines) =
      Refines-Represents db store (memory_initialize c store) _ _ h refines
  initialized_Represents db store c w h (inr differs) =
      subst₂
        (λ (out : Result (Unit {0}) × Database) (expected : Result (Unit {0} × MemoryStore)).
          Represents out.1 (after store expected))
        (sym differs.conflict) (sym differs.exists) h

  pub Reaches-Represents :
      (db : Database) (store : MemoryStore) → Reaches db store → Represents db store
  Reaches-Represents _ _ created = empty-Represents
  Reaches-Represents _ _ (initialized {db = db} {store = store} c r w utc) =
      let h = Reaches-Represents db store r in
      initialized_Represents db store c w h (initialize-Refines db store c w h utc)
  Reaches-Represents _ _ (appended {db = db} {store = store} c target at actor f u next r p m w) =
      let h = Reaches-Represents db store r in
      Refines-Represents db store (memory_compare_and_append u store) _ _ h
        (compare_and_append-Refines db store c target at actor f u next h p m w)

  -- After any sequence of initializations and prepared appends on an empty database, failed ones
  -- included, `load` and `history` answer for every run what the map answers after the same
  -- sequence: no history that the store wrote is ever CORRUPT.
  pub reached_reads :
      (db : Database) (store : MemoryStore) (run : RunId)
      → Reaches db store
      → (load run db ≡ (ok (memory_load run store), db))
        × (history run db ≡ (memory_history run store, db))
  reached_reads db store run r =
      let h = Reaches-Represents db store r in
      (load-Represents db store run h, history-Represents db store run h)
