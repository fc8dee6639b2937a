-- ===== src/Adapters/SqliteStateStore/Refines.antt =====
-- The SQLite store implements the map of ports/state_store.py: each operation on a database that
-- represents a map has the map's result, and leaves a database that represents the map's next state.
use mathlib.Core.Path.{subst₂}
use alicerce.Prelude.{◌≡◌, refl, sym, arith, nat_eq, list_eq}
use alicerce.Errors.{Exn, Result, ok, err}
use alicerce.Domain.Contracts.{FinalStates}
use alicerce.Domain.RunIdentity.{RunId, run_id_eq}
use alicerce.Domain.State.{run_checkpoint_eq}
use alicerce.Ports.StateStore.{MemoryStore, memory_load, memory_history}
use alicerce.Adapters.StateCodec.{StateCodec}
use alicerce.Adapters.SqliteStateStore.Database.{Database}
use alicerce.Adapters.SqliteStateStore.Represents.{Represents, validated_run-Represents}
use alicerce.Adapters.SqliteStateStore.{load, history}

module _ ⦃canonical : FinalStates⦄ ⦃codec : StateCodec⦄ where
  -- What an operation that began at `db` has done, given what the map's operation does: the same
  -- result over the next state, or the same exception and the same database.
  abbrev pub Refines :
      {A : Type 0} → Database → Result (A × MemoryStore) → Result A × Database → Type 0
  Refines db (ok (a, store)) (r, db') = (r ≡ ok a) × Represents db' store
  Refines db (err e) (r, db') = (r ≡ err e) × (db' ≡ db)

  pub Refines-ok :
      {A : Type 0} (db db' : Database) (a : A) (store : MemoryStore)
      {expected : Result (A × MemoryStore)} {outcome : Result A × Database}
      → expected ≡ ok (a, store)
      → outcome ≡ (ok a, db')
      → Represents db' store
      → Refines db expected outcome
  Refines-ok db db' a store p q h = subst₂ (λ e o. Refines db e o) (sym p) (sym q) (refl, h)

  pub Refines-err :
      {A : Type 0} (db : Database) (x : Exn) {expected : Result (A × MemoryStore)}
      {outcome : Result A × Database}
      → expected ≡ err x
      → outcome ≡ (err x, db)
      → Refines db expected outcome
  Refines-err db x p q = subst₂ (λ e o. Refines db e o) (sym p) (sym q) (refl, refl)

  -- `load` returns the map's checkpoint, validated, and writes nothing.
  pub load-Represents :
      (db : Database) (store : MemoryStore) (run : RunId)
      → Represents db store
      → load run db ≡ (ok (memory_load run store), db)
  unfolding load memory_load
  load-Represents db store run h = rw (validated_run-Represents db store run h)

  -- `history` returns the map's events in order, or NOT_FOUND, and writes nothing.
  pub history-Represents :
      (db : Database) (store : MemoryStore) (run : RunId)
      → Represents db store
      → history run db ≡ (memory_history run store, db)
  unfolding history memory_history
  history-Represents db store run h = rw (validated_run-Represents db store run h) (ground arith)
