-- ===== src/Adapters/StateCodec.antt =====
-- The interface between the SQLite store and the serialization of its values
-- (src/alicerce/adapters/local/state_serialization.py): the six functions, and what the store
-- relies on. A value that was serialized and fits is read back as it was; what cannot be read raises
-- an exception that the store's `except (StateSerializationError, TypeError, ValueError)` catches.
use alicerce.Prelude.{◌≡◌, Bytes}
use alicerce.Errors.{Result, ok}
use alicerce.Domain.RunIdentity.{RunIdentity}
use alicerce.Domain.Lifecycle.{LifecycleTransition}
use alicerce.Domain.State.{RunCheckpoint}

pub record StateCodec : Type 1 where
  pub serialize_run_identity : RunIdentity → Result Bytes
  pub deserialize_run_identity : Bytes → Result RunIdentity
  pub serialize_checkpoint : RunCheckpoint → Result Bytes
  pub deserialize_checkpoint : Bytes → Result RunCheckpoint
  pub serialize_transition : LifecycleTransition → Result Bytes
  pub deserialize_transition : Bytes → Result LifecycleTransition
  -- the values that read back
  pub IdentityFits : RunIdentity → Type 0
  pub CheckpointFits : RunCheckpoint → Type 0
  pub TransitionFits : LifecycleTransition → Type 0
  pub identity_round_trip :
      (x : RunIdentity) (b : Bytes)
      → IdentityFits x
      → serialize_run_identity x ≡ ok b
      → deserialize_run_identity b ≡ ok x
  pub checkpoint_round_trip :
      (x : RunCheckpoint) (b : Bytes)
      → CheckpointFits x
      → serialize_checkpoint x ≡ ok b
      → deserialize_checkpoint b ≡ ok x
  pub transition_round_trip :
      (x : LifecycleTransition) (b : Bytes)
      → TransitionFits x
      → serialize_transition x ≡ ok b
      → deserialize_transition b ≡ ok x
