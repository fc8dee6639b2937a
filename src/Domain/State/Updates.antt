-- ===== src/Domain/State/Updates.antt =====
-- The updates that `prepare_state_update` makes, and the checkpoints that they lead to.
use mathlib.Core.Path.{subst}
use alicerce.Prelude.{
  ◌+◌, ◌≡◌, refl, sym, ◌∙◌, inl, inr, false, true, Option, Text, arith, ==_iff, eq_self, nat_eq,
  list_eq, option_eq,
}
use alicerce.Errors.{Result, ok, ◌>>=◌, Result-cases, bind_ok}
use alicerce.DateTime.{DateTime, is_utc, before, before_irreflexive, not_before_transitive}
use alicerce.Domain.Contracts.{FinalStates}
use alicerce.Domain.RunIdentity.{RunIdentity, run_id_eq}
use alicerce.Domain.Lifecycle.{
  LifecycleState, lifecycle_state_eq, LifecycleActor, LifecycleAdvance, RunLifecycle,
  advance_lifecycle,
}
use alicerce.Domain.Lifecycle.Advance.{IsLifecycle, Permits, advanced}
use alicerce.Domain.Lifecycle.Refusal.{advance_sound}
use alicerce.Domain.Lifecycle.Reach.{initial, start_accepts}
use alicerce.Domain.State.{
  RunCheckpoint, StateUpdate, new_run_checkpoint, new_state_update, next_checkpoint,
  create_initial_checkpoint, prepare_state_update,
}

-- What `RunCheckpoint.__post_init__` leaves true.
pub record IsCheckpoint (c : RunCheckpoint) : Type 0 where
  pub same_run : c.identity.run_id ≡ c.lifecycle.run_id
  pub not_early : before c.lifecycle.updated_at c.identity.created_at ≡ false

pub new_run_checkpoint-accepts :
    (c : RunCheckpoint) → IsCheckpoint c → new_run_checkpoint c.identity c.lifecycle ≡ ok c
unfolding new_run_checkpoint
new_run_checkpoint-accepts c h =
    ground (arith, h.same_run, h.not_early, ==_iff c.identity.run_id c.lifecycle.run_id)

pub new_run_checkpoint_sound :
    (identity : RunIdentity) (l : RunLifecycle) {c : RunCheckpoint}
    → new_run_checkpoint identity l ≡ ok c
    → (c ≡ record { identity = identity; lifecycle = l })
      × (identity.run_id ≡ l.run_id)
      × (before l.updated_at identity.created_at ≡ false)
unfolding new_run_checkpoint
new_run_checkpoint_sound identity l h = ground (arith, ==_iff identity.run_id l.run_id)

module _ ⦃canonical : FinalStates⦄ where
  abbrev pub initial_checkpoint : RunIdentity → RunCheckpoint
  initial_checkpoint identity = record { identity = identity; lifecycle = initial identity }

  -- Every identity in UTC has its checkpoint of revision zero.
  pub create_initial_checkpoint-accepts :
      (identity : RunIdentity)
      → is_utc identity.created_at ≡ true
      → create_initial_checkpoint identity ≡ ok (initial_checkpoint identity)
  unfolding create_initial_checkpoint
  create_initial_checkpoint-accepts identity h = rw (start_accepts identity h) (
      new_run_checkpoint-accepts (initial_checkpoint identity)
        (record { same_run = refl; not_early = before_irreflexive identity.created_at }))

  module _ (c : RunCheckpoint) (target : LifecycleState) (at : DateTime) (actor : LifecycleActor)
      (f : Option Text) where
    abbrev pub updated : StateUpdate
    updated = record { expected = c; advance = advanced c.lifecycle target at actor f }

    pub new_state_update-accepts :
        before at c.lifecycle.updated_at ≡ false
        → new_state_update c (advanced c.lifecycle target at actor f) ≡ ok updated
    unfolding new_state_update advanced
    new_state_update-accepts h = rw (
      h,
      eq_self c.lifecycle.run_id,
      eq_self (c.lifecycle.revision + 1),
      eq_self c.lifecycle.state,
      eq_self target,
      eq_self at,
      eq_self f,
    )

    abbrev advanced_here : Result LifecycleAdvance
    advanced_here = advance_lifecycle c.lifecycle target at actor f

    -- The five checks of `StateUpdate` never refuse what `advance_lifecycle` returned: preparing an
    -- update fails exactly as the advance does, and otherwise returns the advance with its
    -- precondition.
    pub prepare_state_update-advance : prepare_state_update c target at actor f ≡ (do
      advance ← advance_lifecycle c.lifecycle target at actor f
      ok (let u : StateUpdate = record { expected = c; advance = advance } in u))
    unfolding prepare_state_update
    prepare_state_update-advance = elim (Result-cases advanced_here) [
      | inl (a, e) ↦
          let (p, same) = advance_sound c.lifecycle target at actor f e in
          rw e (
            subst (λ x. new_state_update c x ≡ ok (record { expected = c; advance = x })) (sym same)
              (new_state_update-accepts p.ordered))
      | inr (x, e) ↦ rw e
    ]

    pub prepare_state_update_sound :
        {u : StateUpdate}
        → prepare_state_update c target at actor f ≡ ok u
        → Permits c.lifecycle target at f × (u ≡ updated)
    prepare_state_update_sound h =
        let (a, made, same) = bind_ok advanced_here _ (sym prepare_state_update-advance ∙ h) in
        let (p, result) = advance_sound c.lifecycle target at actor f made in (p, cc (same, result))

    -- From a checkpoint, every prepared update has a next checkpoint.
    pub next_checkpoint-prepare :
        {u : StateUpdate}
        → IsCheckpoint c
        → prepare_state_update c target at actor f ≡ ok u
        → (n : RunCheckpoint) × (next_checkpoint u ≡ ok n)
          × IsCheckpoint n
          × IsLifecycle n.lifecycle
          × (n.identity ≡ c.identity)
          × (n.lifecycle.revision ≡ c.lifecycle.revision + 1)
    next_checkpoint-prepare h made =
        let (p, same) = prepare_state_update_sound made in
        let next : RunCheckpoint = record {
          identity = c.identity;
          lifecycle = updated.advance.lifecycle;
        } in
        let good : IsCheckpoint next =
          unfold advanced in
          record {
            same_run = h.same_run;
            not_early =
                not_before_transitive c.identity.created_at c.lifecycle.updated_at at h.not_early
                  p.ordered;
          } in
        (
          next,
          unfold next_checkpoint in (rw same (new_run_checkpoint-accepts next good)),
          good,
          unfold advanced in record { time = p.time; final = p.final },
          refl,
          unfold advanced in refl,
        )
