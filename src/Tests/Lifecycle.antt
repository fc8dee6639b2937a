-- ===== src/Tests/Lifecycle.antt =====
-- The lifecycle and the updates of a checkpoint, at the sample run.
use alicerce.Prelude.{
  inr, pos, ◌≢◌, ◌+◌, ◌≤◌, ◌≡◌, refl, inl, none, [], ◌∷◌, length, elem, arith, ◌==◌, nat_eq,
  list_eq, false,
}
use alicerce.Errors.{ok, err, ◌>>=◌, lifecycle_error, LifecycleErrorCause}
use alicerce.DateTime.{before}
use alicerce.Domain.Lifecycle.{
  contract_bound, workspace_prepared, verifying, RunLifecycle, LifecycleAdvance, advance_lifecycle,
  is_completed, allowed_next, LifecycleState-discrete,
}
use alicerce.Domain.Lifecycle.{new_run_lifecycle, new_lifecycle_transition}
use alicerce.Domain.State.Forged.{new_state_update_unguarded}
use alicerce.Domain.State.Updates.{updated}
use alicerce.Domain.Lifecycle.Advance.{Moves, Permits, advanced, advance_accepts, IsLifecycle}
use alicerce.Domain.Lifecycle.Refusal.{advance_sound, advance_refuses, Reason}
use alicerce.Domain.Lifecycle.Reach.{Reaches, started, stepped, start_accepts, reached-IsLifecycle}
use alicerce.Domain.State.{
  new_state_update, StateUpdate, RunCheckpoint, prepare_state_update, next_checkpoint,
}
use alicerce.Domain.State.Updates.{
  prepare_state_update-advance, next_checkpoint-prepare, IsCheckpoint, new_run_checkpoint-accepts,
}
use alicerce.Tests.Samples.{
  final_states, identity, noon, later, builder, first_checkpoint, second_checkpoint, prepared_event,
}

abbrev first : RunLifecycle
first = first_checkpoint.lifecycle

permitted : Permits first workspace_prepared later none
unfolding before
permitted = record { time = refl; moves = inl refl; ordered = refl; final = omega arith }

advance_accepts_example :
    advance_lifecycle first workspace_prepared later builder none
    ≡ ok (advanced first workspace_prepared later builder none)
advance_accepts_example = advance_accepts first workspace_prepared later builder none permitted

abbrev prepared_advance : LifecycleAdvance
prepared_advance = record { lifecycle = second_checkpoint.lifecycle; transition = prepared_event }

advances : advance_lifecycle first workspace_prepared later builder none ≡ ok prepared_advance
unfolding advanced
advances = advance_accepts_example

advance_sound_example :
    Permits first workspace_prepared later none
    × (prepared_advance ≡ advanced first workspace_prepared later builder none)
advance_sound_example = advance_sound first workspace_prepared later builder none advances

skips :
    advance_lifecycle first verifying later builder none
    ≡ err (lifecycle_error LifecycleErrorCause.invalid_transition)
unfolding advance_lifecycle elem allowed_next ◌==◌ LifecycleState-discrete is_completed
skips = refl

advance_refuses_example :
    Reason first verifying later none (lifecycle_error LifecycleErrorCause.invalid_transition)
advance_refuses_example =
    advance_refuses first verifying later builder none
      (lifecycle_error LifecycleErrorCause.invalid_transition) skips

reaches : Reaches identity second_checkpoint.lifecycle (prepared_event ∷ [])
reaches =
    stepped workspace_prepared later builder none (started (start_accepts identity refl)) advances

reached-IsLifecycle_example :
    IsLifecycle second_checkpoint.lifecycle
    × (second_checkpoint.lifecycle.run_id ≡ identity.run_id)
    × (before later noon ≡ false)
    × (1 ≡ length (prepared_event ∷ []))
    × (length (prepared_event ∷ []) ≤ 6)
reached-IsLifecycle_example =
    reached-IsLifecycle identity second_checkpoint.lifecycle (prepared_event ∷ []) reaches

ordered : before later noon ≡ false
unfolding before
ordered = refl

prepare_state_update-advance_example :
    prepare_state_update first_checkpoint workspace_prepared later builder none ≡ (do
      advance ← advance_lifecycle first workspace_prepared later builder none
      ok (let u : StateUpdate = record { expected = first_checkpoint; advance = advance } in u))
prepare_state_update-advance_example =
    prepare_state_update-advance first_checkpoint workspace_prepared later builder none

abbrev pub update : StateUpdate
update = record { expected = first_checkpoint; advance = prepared_advance }

pub prepares :
    prepare_state_update first_checkpoint workspace_prepared later builder none ≡ ok update
prepares = rw advances at prepare_state_update-advance_example

first-IsCheckpoint : IsCheckpoint first_checkpoint
unfolding before
first-IsCheckpoint = record { same_run = refl; not_early = refl }

second-IsCheckpoint : IsCheckpoint second_checkpoint
unfolding before
second-IsCheckpoint = record { same_run = refl; not_early = refl }

next_checkpoint-prepare_example :
    (n : RunCheckpoint) × (next_checkpoint update ≡ ok n)
    × IsCheckpoint n
    × IsLifecycle n.lifecycle
    × (n.identity ≡ identity)
    × (n.lifecycle.revision ≡ 0 + 1)
next_checkpoint-prepare_example =
    next_checkpoint-prepare first_checkpoint workspace_prepared later builder none
      first-IsCheckpoint prepares

pub updates : next_checkpoint update ≡ ok second_checkpoint
unfolding next_checkpoint
updates = new_run_checkpoint-accepts second_checkpoint second-IsCheckpoint

cannot_skip : ¬ (Moves contract_bound verifying)
cannot_skip (inl h) = omega arith
cannot_skip (inr h) = omega (arith, h.1)

new_state_update_unguarded_example :
    (new_run_lifecycle identity.run_id verifying (pos (0 + 1)) later none
      ≡ ok (advanced first verifying later builder none).lifecycle)
    × (new_lifecycle_transition identity.run_id
          (pos (0 + 1))
          contract_bound
          verifying
          later
          builder
          none
        ≡ ok (advanced first verifying later builder none).transition)
    × (new_state_update first_checkpoint (advanced first verifying later builder none)
        ≡ ok (updated first_checkpoint verifying later builder none))
    × (prepare_state_update first_checkpoint verifying later builder none
        ≢ ok (updated first_checkpoint verifying later builder none))
new_state_update_unguarded_example =
    new_state_update_unguarded first_checkpoint verifying later builder none cannot_skip refl
      ordered (omega arith)
