-- ===== src/Ports/StateStore.antt =====
-- src/alicerce/ports/state_store.py: what a state store promises, as the reference implementation
-- of the contract tests states it (tests/test_state_store_contract.py, `MemoryStateStore`): a map
-- from runs to their current checkpoint and their accepted transitions in order.
use alicerce.Prelude.{not, Option, none, some, List, [], ◌∷◌, ◌++◌, ◌==◌, if◌then◌else◌}
use alicerce.Errors.{
  Result, ok, ◌>>=◌, ◌>>◌, raise_if, or_raise, state_store_error, StateStoreErrorCause,
}
use alicerce.Domain.Contracts.{FinalStates}
use alicerce.Domain.RunIdentity.{RunId, run_id_eq}
use alicerce.Domain.Lifecycle.{LifecycleTransition, is_none}
use alicerce.Domain.State.{
  RunCheckpoint, run_checkpoint_eq, StateUpdate, next_checkpoint, create_initial_checkpoint,
}

-- The entry of one run: its current checkpoint and its history.
abbrev pub Entry : Type 0
Entry = RunCheckpoint × List LifecycleTransition

abbrev pub MemoryStore : Type 0
MemoryStore = RunId → Option Entry

unfoldable pub write : RunId → Entry → MemoryStore → MemoryStore
write run entry store j = if run == j then some entry else store j

module _ ⦃canonical : FinalStates⦄ where
  -- The run must be new, and the checkpoint must be the identity-derived initial state.
  unfoldable pub memory_initialize : RunCheckpoint → MemoryStore → Result (Unit {0} × MemoryStore)
  memory_initialize checkpoint store = do
    let run = checkpoint.identity.run_id
    raise_if (not (is_none (store run))) (state_store_error StateStoreErrorCause.already_exists)
    initial ← create_initial_checkpoint checkpoint.identity
    raise_if (not (checkpoint == initial)) (state_store_error StateStoreErrorCause.conflict)
    ok (tt, write run (checkpoint, []) store)

unfoldable pub memory_load : RunId → MemoryStore → Option RunCheckpoint
memory_load run store = elim (store run) [ none ↦ none | some (checkpoint, _) ↦ some checkpoint ]

unfoldable pub memory_compare_and_append :
    StateUpdate → MemoryStore → Result (RunCheckpoint × MemoryStore)
memory_compare_and_append update store = do
  let run = update.expected.identity.run_id
  (current, events) ← or_raise (store run) (state_store_error StateStoreErrorCause.not_found)
  raise_if (not (current == update.expected)) (state_store_error StateStoreErrorCause.conflict)
  next ← next_checkpoint update
  ok (next, write run (next, events ++ update.advance.transition ∷ []) store)

unfoldable pub memory_history : RunId → MemoryStore → Result (List LifecycleTransition)
memory_history run store = do
  (_, events) ← or_raise (store run) (state_store_error StateStoreErrorCause.not_found)
  ok events
