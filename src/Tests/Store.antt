-- ===== src/Tests/Store.antt =====
-- The store at the sample run: from the empty database through an initialization and an append.
use alicerce.Prelude.{◌≡◌, refl, ◌⊎◌, inl, inr, none, [], ◌∷◌}
use alicerce.Errors.{ok}
use alicerce.Domain.Lifecycle.{workspace_prepared}
use alicerce.Ports.StateStore.{
  MemoryStore, memory_initialize, memory_load, memory_compare_and_append, memory_history,
}
use alicerce.Adapters.SqliteStateStore.{initialize, load, compare_and_append, history}
use alicerce.Adapters.SqliteStateStore.Database.{Database}
use alicerce.Adapters.SqliteStateStore.Refines.{Refines}
use alicerce.Adapters.SqliteStateStore.Initialize.{IsWritable, Differs, initialize-Refines}
use alicerce.Adapters.SqliteStateStore.Append.{IsAppendable}
use alicerce.Adapters.SqliteStateStore.CompareAndAppend.{compare_and_append-Refines}
use alicerce.Adapters.SqliteStateStore.Operations.{
  Reaches, created, initialized, appended, after, empty_database, empty_store, empty-Represents,
  Reaches-Represents, reached_reads,
}
use alicerce.Tests.Samples.{
  final_states, sample_codec, identity, later, builder, first_checkpoint, second_checkpoint,
  prepared_event,
}
use alicerce.Tests.Lifecycle.{update, prepares, updates}

writable : IsWritable first_checkpoint
writable = record {
  identity_bytes = 3 ∷ [];
  checkpoint_bytes = 0 ∷ [];
  identity = refl;
  checkpoint = refl;
  identity_fits = refl;
  checkpoint_fits = inl refl;
}

appendable : IsAppendable prepared_event second_checkpoint
appendable = record {
  event_bytes = 4 ∷ [];
  next_bytes = 1 ∷ [];
  event_written = refl;
  next_written = refl;
  event_fits = refl;
  next_fits = inr refl;
}

initialize-Refines_example :
    Refines empty_database
      (memory_initialize first_checkpoint empty_store)
      (initialize first_checkpoint empty_database)
    ⊎ Differs empty_database empty_store first_checkpoint writable empty-Represents
initialize-Refines_example =
    initialize-Refines empty_database empty_store first_checkpoint writable empty-Represents refl

abbrev database : Database
database = (initialize first_checkpoint empty_database).1

abbrev store : MemoryStore
store = after empty_store (memory_initialize first_checkpoint empty_store)

begun : Reaches database store
begun = initialized first_checkpoint created writable refl

compare_and_append-Refines_example :
    Refines database (memory_compare_and_append update store) (compare_and_append update database)
compare_and_append-Refines_example =
    compare_and_append-Refines database store first_checkpoint workspace_prepared later builder none
      update second_checkpoint (Reaches-Represents database store begun) prepares updates appendable

abbrev last_database : Database
last_database = (compare_and_append update database).1

abbrev last_store : MemoryStore
last_store = after store (memory_compare_and_append update store)

reached : Reaches last_database last_store
reached =
    appended first_checkpoint workspace_prepared later builder none update second_checkpoint begun
      prepares updates appendable

reached_reads_example :
    (load identity.run_id last_database
      ≡ (ok (memory_load identity.run_id last_store), last_database))
    × (history identity.run_id last_database
        ≡ (memory_history identity.run_id last_store, last_database))
reached_reads_example = reached_reads last_database last_store identity.run_id reached
