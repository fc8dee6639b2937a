-- ===== src/Domain/Lifecycle/Refusal.antt =====
-- What a success and each failure of `advance_lifecycle` tell about its arguments.
use alicerce.Prelude.{
  ◌<◌, ◌≡◌, ◌≢◌, refl, sym, ◌∙◌, true, false, Option, none, some, elem, Text, arith, nat_eq,
  list_eq,
}
use alicerce.Errors.{Exn, ok, err, value_error, type_error, lifecycle_error, LifecycleErrorCause}
use alicerce.DateTime.{DateTime, is_utc, before}
use alicerce.Domain.Contracts.{FinalStates}
use alicerce.Domain.Lifecycle.States.{LifecycleState, allowed_next, lifecycle_state_eq}
use alicerce.Domain.Lifecycle.{
  LifecycleActor, RunLifecycle, LifecycleAdvance, advance_lifecycle, require_terminal_consistency,
}
use alicerce.Domain.Lifecycle.Advance.{
  rank, rank_bound, Moves, moves→Moves, Moves→moves, elem-allowed_next, rank-is_completed, Permits,
  advanced, consistency_sound,
}

module _ ⦃canonical : FinalStates⦄ where
  module _ (l : RunLifecycle) (target : LifecycleState) (at : DateTime) (f : Option Text) where
    -- Why each exception is raised.
    abbrev pub Reason : Exn → Type 0
    Reason value_error = is_utc at ≡ false
    Reason type_error = (v : Text) × (f ≡ some v) × (elem v canonical.values ≡ false)
    Reason (lifecycle_error LifecycleErrorCause.terminal_state) = rank l.state ≡ 6
    Reason (lifecycle_error LifecycleErrorCause.invalid_transition) = ¬ (Moves l.state target)
    Reason (lifecycle_error LifecycleErrorCause.time_regression) = before at l.updated_at ≡ true
    Reason (lifecycle_error LifecycleErrorCause.final_state_required) =
        (rank target ≡ 6) × (f ≡ none)
    Reason (lifecycle_error LifecycleErrorCause.final_state_forbidden) =
        (rank target < 6) × (f ≢ none)
    Reason _ = ⊥

  pub permit_time :
      (l : RunLifecycle) (target : LifecycleState) (at : DateTime) (actor : LifecycleActor)
      (f : Option Text) {a : LifecycleAdvance}
      → advance_lifecycle l target at actor f ≡ ok a
      → (is_utc at ≡ true)
        × (elem target (allowed_next l.state) ≡ true)
        × (before at l.updated_at ≡ false)
        × (require_terminal_consistency target f ≡ ok tt)
        × (a ≡ advanced l target at actor f)
  unfolding advance_lifecycle advanced
  permit_time l target at actor none h = ground arith
  permit_time l target at actor (some v) h = ground arith

  -- A success means that the step was permitted, and determines the result.
  pub advance_sound :
      (l : RunLifecycle) (target : LifecycleState) (at : DateTime) (actor : LifecycleActor)
      (f : Option Text) {a : LifecycleAdvance}
      → advance_lifecycle l target at actor f ≡ ok a
      → Permits l target at f × (a ≡ advanced l target at actor f)
  advance_sound l target at actor f h =
      let (time, allowed, ordered, final, result) = permit_time l target at actor f h in
      (
        record {
          time = time;
          moves = moves→Moves l.state target (sym (elem-allowed_next l.state target) ∙ allowed);
          ordered = ordered;
          final = consistency_sound target f final;
        },
        result,
      )

  -- Each failure has its reason.
  pub advance_refuses :
      (l : RunLifecycle) (target : LifecycleState) (at : DateTime) (actor : LifecycleActor)
      (f : Option Text) (e : Exn)
      → advance_lifecycle l target at actor f ≡ err e
      → Reason l target at f e
  unfolding advance_lifecycle
  advance_refuses l target at actor f value_error h = ground arith
  advance_refuses l target at actor none type_error h = absurd (ground arith)
  advance_refuses l target at actor (some v) type_error h = (v, refl, ground arith)
  advance_refuses l target at actor f (lifecycle_error LifecycleErrorCause.terminal_state) h =
      ground (arith, rank-is_completed l.state, rank_bound l.state)
  advance_refuses l target at actor f (lifecycle_error LifecycleErrorCause.invalid_transition) h =
      λ m. ground (arith, elem-allowed_next l.state target, Moves→moves l.state target m)
  advance_refuses l target at actor f (lifecycle_error LifecycleErrorCause.time_regression) h =
      ground arith
  advance_refuses l target at actor none (lifecycle_error LifecycleErrorCause.final_state_required)
        h =
      (ground (arith, rank-is_completed target, rank_bound target), refl)
  advance_refuses l target at actor (some v)
        (lifecycle_error LifecycleErrorCause.final_state_required) h =
      absurd (ground arith)
  advance_refuses l target at actor f (lifecycle_error LifecycleErrorCause.final_state_forbidden)
        h =
      (ground (arith, rank-is_completed target, rank_bound target), ground arith)
  advance_refuses l target at actor f _ h = absurd (ground arith)
