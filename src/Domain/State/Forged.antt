-- ===== src/Domain/State/Forged.antt =====
-- Updates that are constructed without `prepare_state_update`.
use alicerce.Prelude.{◌+◌, ◌≡◌, ◌≢◌, false, true, Option, Text, pos}
use alicerce.Errors.{ok}
use alicerce.DateTime.{DateTime, is_utc, before}
use alicerce.Domain.Contracts.{FinalStates}
use alicerce.Domain.Lifecycle.{
  LifecycleState, LifecycleActor, new_run_lifecycle, new_lifecycle_transition,
}
use alicerce.Domain.Lifecycle.Advance.{
  Moves, FinalFits, advanced, new_run_lifecycle-accepts, new_lifecycle_transition-accepts,
}
use alicerce.Domain.State.{RunCheckpoint, new_state_update, prepare_state_update}
use alicerce.Domain.State.Updates.{updated, new_state_update-accepts, prepare_state_update_sound}

module _ ⦃canonical : FinalStates⦄ where
  -- For a target that the table does not allow, at an instant in UTC that is not before the last and
  -- with a final state that fits the target, the constructors of the snapshot, of the transition and
  -- of the update accept the move, while `prepare_state_update` does not return that update.
  pub new_state_update_unguarded :
      (c : RunCheckpoint) (target : LifecycleState) (at : DateTime) (actor : LifecycleActor)
      (f : Option Text)
      → ¬ (Moves c.lifecycle.state target)
      → is_utc at ≡ true
      → before at c.lifecycle.updated_at ≡ false
      → FinalFits target f
      → (new_run_lifecycle c.lifecycle.run_id target (pos (c.lifecycle.revision + 1)) at f
          ≡ ok (advanced c.lifecycle target at actor f).lifecycle)
        × (new_lifecycle_transition c.lifecycle.run_id
              (pos (c.lifecycle.revision + 1))
              c.lifecycle.state
              target
              at
              actor
              f
            ≡ ok (advanced c.lifecycle target at actor f).transition)
        × (new_state_update c (advanced c.lifecycle target at actor f)
            ≡ ok (updated c target at actor f))
        × (prepare_state_update c target at actor f ≢ ok (updated c target at actor f))
  unfolding advanced
  new_state_update_unguarded c target at actor f jump utc ordered final = (
    new_run_lifecycle-accepts (advanced c.lifecycle target at actor f).lifecycle
        (record { time = utc; final = final }),
    new_lifecycle_transition-accepts (advanced c.lifecycle target at actor f).transition
        (record { time = utc; final = final }),
    new_state_update-accepts c target at actor f ordered,
    λ made. jump (prepare_state_update_sound c target at actor f made).0.moves,
  )
