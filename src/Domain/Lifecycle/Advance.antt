-- ===== src/Domain/Lifecycle/Advance.antt =====
-- When `advance_lifecycle` succeeds, and with what result.
use alicerce.Prelude.{
  ℕ, ◌+◌, ◌≤◌, ◌<◌, ◌≡◌, refl, ◌⊎◌, inl, inr, Bool, true, false, ◌&&◌, ◌||◌, Option, none, some,
  pos, ◌==◌, elem, Text, arith, nat_eq, list_eq, leb,
}
use alicerce.Errors.{ok}
use alicerce.DateTime.{DateTime, is_utc, before}
use alicerce.Domain.Contracts.{FinalStates}
use alicerce.Domain.Lifecycle.States.{
  LifecycleState, contract_bound, workspace_prepared, building, verifying, deciding, review_pending,
  completed, is_completed, allowed_next, LifecycleState-discrete, lifecycle_state_eq,
}
use alicerce.Domain.Lifecycle.{
  LifecycleActor, RunLifecycle, LifecycleTransition, LifecycleAdvance, require_terminal_consistency,
  require_optional_final_state, new_run_lifecycle, new_lifecycle_transition, advance_lifecycle,
}

-- The place of a state on the way to completion.
abbrev pub rank : LifecycleState → ℕ
rank contract_bound = 0
rank workspace_prepared = 1
rank building = 2
rank verifying = 3
rank deciding = 4
rank review_pending = 5
rank completed = 6

-- One step along the way, or straight to the end.
abbrev pub Moves : LifecycleState → LifecycleState → Type 0
Moves s t = (rank t ≡ rank s + 1) ⊎ ((rank s < 6) × (rank t ≡ 6))

unfoldable pub moves : LifecycleState → LifecycleState → Bool
moves s t =
    (leb (rank t) (rank s + 1) && leb (rank s + 1) (rank t))
    || (leb 6 (rank t) && leb (rank s + 1) 6)

pub elem-allowed_next : (s t : LifecycleState) → elem t (allowed_next s) ≡ moves s t
unfolding elem allowed_next moves ◌==◌ LifecycleState-discrete
elem-allowed_next contract_bound contract_bound = refl
elem-allowed_next contract_bound _ = refl
elem-allowed_next workspace_prepared contract_bound = refl
elem-allowed_next workspace_prepared _ = refl
elem-allowed_next building contract_bound = refl
elem-allowed_next building _ = refl
elem-allowed_next verifying contract_bound = refl
elem-allowed_next verifying _ = refl
elem-allowed_next deciding contract_bound = refl
elem-allowed_next deciding _ = refl
elem-allowed_next review_pending contract_bound = refl
elem-allowed_next review_pending _ = refl
elem-allowed_next completed contract_bound = refl
elem-allowed_next completed _ = refl

pub moves→Moves : (s t : LifecycleState) → moves s t ≡ true → Moves s t
unfolding moves
moves→Moves s t h = grind arith

pub Moves→moves : (s t : LifecycleState) → Moves s t → moves s t ≡ true
unfolding moves
Moves→moves s t (inl h) = ground arith
Moves→moves s t (inr h) = ground arith

pub rank-is_completed : (s : LifecycleState) → is_completed s ≡ leb 6 (rank s)
unfolding is_completed
rank-is_completed contract_bound = refl
rank-is_completed _ = refl

pub rank_bound : (s : LifecycleState) → rank s ≤ 6
rank_bound contract_bound = omega arith
rank_bound _ = omega arith

module _ ⦃canonical : FinalStates⦄ where
  -- A final state is there exactly for COMPLETED, and is one of FINAL_STATES.
  abbrev pub FinalFits : LifecycleState → Option Text → Type 0
  FinalFits s none = rank s < 6
  FinalFits s (some value) = (rank s ≡ 6) × (elem value canonical.values ≡ true)

  -- What `RunLifecycle.__post_init__` leaves true of every snapshot.
  pub record IsLifecycle (l : RunLifecycle) : Type 0 where
    pub time : is_utc l.updated_at ≡ true
    pub final : FinalFits l.state l.final_state

  -- The same for a transition.
  pub record IsTransition (e : LifecycleTransition) : Type 0 where
    pub time : is_utc e.occurred_at ≡ true
    pub final : FinalFits e.to_state e.final_state

  -- What a transition must meet.
  pub record Permits (l : RunLifecycle) (target : LifecycleState) (at : DateTime) (f : Option Text)
      : Type 0 where
    pub time : is_utc at ≡ true
    pub moves : Moves l.state target
    pub ordered : before at l.updated_at ≡ false
    pub final : FinalFits target f

  unfoldable pub advanced :
      RunLifecycle → LifecycleState → DateTime → LifecycleActor → Option Text → LifecycleAdvance
  advanced l target at actor final_state = record {
    lifecycle = record {
      run_id = l.run_id;
      state = target;
      revision = l.revision + 1;
      updated_at = at;
      final_state = final_state;
    };
    transition = record {
      run_id = l.run_id;
      revision = l.revision + 1;
      from_state = l.state;
      to_state = target;
      occurred_at = at;
      actor = actor;
      final_state = final_state;
    };
  }

  pub consistency_accepts :
      (s : LifecycleState) (f : Option Text)
      → FinalFits s f
      → require_terminal_consistency s f ≡ ok tt
  unfolding require_terminal_consistency
  consistency_accepts s none h = ground (arith, rank-is_completed s)
  consistency_accepts s (some v) h = ground (arith, rank-is_completed s)

  pub consistency_sound :
      (s : LifecycleState) (f : Option Text)
      → require_terminal_consistency s f ≡ ok tt
      → FinalFits s f
  unfolding require_terminal_consistency
  consistency_sound s none h = ground (arith, rank-is_completed s, rank_bound s)
  consistency_sound s (some v) h = ground (arith, rank-is_completed s, rank_bound s)

  optional_accepts :
      (s : LifecycleState) (f : Option Text)
      → FinalFits s f
      → require_optional_final_state f ≡ ok tt
  unfolding require_optional_final_state
  optional_accepts s none h = refl
  optional_accepts s (some v) h = ground arith

  pub new_run_lifecycle-accepts :
      (l : RunLifecycle)
      → IsLifecycle l
      → new_run_lifecycle l.run_id l.state (pos l.revision) l.updated_at l.final_state ≡ ok l
  unfolding new_run_lifecycle
  new_run_lifecycle-accepts l h = rw (h.time, consistency_accepts l.state l.final_state h.final)

  pub new_lifecycle_transition-accepts :
      (e : LifecycleTransition)
      → IsTransition e
      → new_lifecycle_transition e.run_id
          (pos e.revision)
          e.from_state
          e.to_state
          e.occurred_at
          e.actor
          e.final_state
        ≡ ok e
  unfolding new_lifecycle_transition
  new_lifecycle_transition-accepts e h =
      rw (h.time, consistency_accepts e.to_state e.final_state h.final)

  -- If the step is permitted, `advance_lifecycle` returns the next snapshot and its event.
  pub advance_accepts :
      (l : RunLifecycle) (target : LifecycleState) (at : DateTime) (actor : LifecycleActor)
      (f : Option Text)
      → Permits l target at f
      → advance_lifecycle l target at actor f ≡ ok (advanced l target at actor f)
  unfolding advance_lifecycle advanced
  advance_accepts l target at actor none h = ground (
    arith,
    h.time,
    h.ordered,
    h.final,
    rank-is_completed l.state,
    rank-is_completed target,
    elem-allowed_next l.state target,
    Moves→moves l.state target h.moves,
    consistency_accepts target none h.final,
    rank_bound target,
    rank_bound l.state,
  )
  advance_accepts l target at actor (some v) h = ground (
    arith,
    h.time,
    h.ordered,
    h.final,
    rank-is_completed l.state,
    rank-is_completed target,
    elem-allowed_next l.state target,
    Moves→moves l.state target h.moves,
    consistency_accepts target (some v) h.final,
    rank_bound target,
    rank_bound l.state,
  )
