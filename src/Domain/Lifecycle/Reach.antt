-- ===== src/Domain/Lifecycle/Reach.antt =====
-- The lifecycles that a run can reach from its start, with the events that lead there.
use mathlib.Core.Path.{subst}
use alicerce.Prelude.{
  ◌≤◌, ◌<◌, ◌≡◌, refl, sym, inl, inr, false, Option, none, List, [], ◌∷◌, ◌++◌, Text, arith, nat_eq,
  list_eq, length, length-append, true,
}
use alicerce.Errors.{ok}
use alicerce.DateTime.{DateTime, is_utc, before, before_irreflexive, not_before_transitive}
use alicerce.Domain.Contracts.{FinalStates}
use alicerce.Domain.RunIdentity.{RunIdentity}
use alicerce.Domain.Lifecycle.{
  LifecycleState, contract_bound, LifecycleActor, RunLifecycle, LifecycleTransition,
  LifecycleAdvance, start_lifecycle, advance_lifecycle, is_completed,
}
use alicerce.Domain.Lifecycle.Advance.{rank, rank_bound, Moves, IsLifecycle, Permits, advanced}
use alicerce.Domain.Lifecycle.Refusal.{advance_sound}

module _ ⦃canonical : FinalStates⦄ where
  -- Each event is the transition of one call of `advance_lifecycle`.
  pub data Reaches (identity : RunIdentity) : RunLifecycle → List LifecycleTransition → Type 0 where
    started : {l : RunLifecycle} → start_lifecycle identity ≡ ok l → Reaches identity l []
    stepped :
        {l : RunLifecycle} {events : List LifecycleTransition} {a : LifecycleAdvance}
        (target : LifecycleState) (at : DateTime) (actor : LifecycleActor) (f : Option Text)
        → Reaches identity l events
        → advance_lifecycle l target at actor f ≡ ok a
        → Reaches identity a.lifecycle (events ++ a.transition ∷ [])

  pub record IsReached (identity : RunIdentity) (l : RunLifecycle)
      (events : List LifecycleTransition) : Type 0 where
    pub valid : IsLifecycle l
    pub same_run : l.run_id ≡ identity.run_id
    pub not_early : before l.updated_at identity.created_at ≡ false
    pub counted : l.revision ≡ length events
    pub bounded : l.revision ≤ rank l.state

  -- The snapshot of revision zero.
  abbrev pub initial : RunIdentity → RunLifecycle
  initial identity = record {
    run_id = identity.run_id;
    state = contract_bound;
    revision = 0;
    updated_at = identity.created_at;
    final_state = none;
  }

  pub start_sound :
      (identity : RunIdentity) {l : RunLifecycle}
      → start_lifecycle identity ≡ ok l
      → (is_utc identity.created_at ≡ true) × (l ≡ initial identity)
  unfolding start_lifecycle
  start_sound identity h = ground arith

  pub start_accepts :
      (identity : RunIdentity)
      → is_utc identity.created_at ≡ true
      → start_lifecycle identity ≡ ok (initial identity)
  unfolding start_lifecycle is_completed
  start_accepts identity h = rw h

  initial-IsReached :
      (identity : RunIdentity)
      → is_utc identity.created_at ≡ true
      → IsReached identity (initial identity) []
  initial-IsReached identity h = record {
    valid = record { time = h; final = omega arith };
    same_run = refl;
    not_early = before_irreflexive identity.created_at;
    counted = refl;
    bounded = omega arith;
  }

  moves-climbs : (s t : LifecycleState) → Moves s t → rank s < rank t
  moves-climbs s t (inl h) = omega arith
  moves-climbs s t (inr h) = omega arith

  step-IsReached :
      {identity : RunIdentity} {l : RunLifecycle} {events : List LifecycleTransition}
      (target : LifecycleState) (at : DateTime) (actor : LifecycleActor) (f : Option Text)
      → IsReached identity l events
      → Permits l target at f
      → let a = advanced l target at actor f in
        IsReached identity a.lifecycle (events ++ a.transition ∷ [])
  unfolding advanced
  step-IsReached {identity} {l} {events} target at actor f h p = record {
    valid = record { time = p.time; final = p.final };
    same_run = h.same_run;
    not_early = not_before_transitive identity.created_at l.updated_at at h.not_early p.ordered;
    counted = omega (
      arith,
      h.counted,
      length-append {0} events ((advanced l target at actor f).transition ∷ []),
    );
    bounded = omega (arith, h.bounded, moves-climbs l.state target p.moves);
  }

  pub Reaches-IsReached :
      {identity : RunIdentity} {l : RunLifecycle} {events : List LifecycleTransition}
      → Reaches identity l events
      → IsReached identity l events
  Reaches-IsReached {identity} (started h) =
      let (time, same) = start_sound identity h in
      subst (λ x. IsReached identity x []) (sym same) (initial-IsReached identity time)
  Reaches-IsReached {identity} (stepped {events = events} target at actor f r h) =
      let (permitted, result) = advance_sound _ target at actor f h in
      subst (λ a. IsReached identity a.lifecycle (events ++ a.transition ∷ [])) (sym result)
        (step-IsReached target at actor f (Reaches-IsReached r) permitted)

  -- A run ends after at most six transitions, whose number its revision is; its snapshot stays
  -- well formed, of the same run, and never earlier than the identity.
  pub reached-IsLifecycle :
      (identity : RunIdentity) (l : RunLifecycle) (events : List LifecycleTransition)
      → Reaches identity l events
      → IsLifecycle l
        × (l.run_id ≡ identity.run_id)
        × (before l.updated_at identity.created_at ≡ false)
        × (l.revision ≡ length events)
        × (length events ≤ 6)
  reached-IsLifecycle identity l events r =
      let h = Reaches-IsReached r in
      (
        h.valid,
        h.same_run,
        h.not_early,
        h.counted,
        omega (arith, h.counted, h.bounded, rank_bound l.state),
      )
