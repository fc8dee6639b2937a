-- ===== src/Adapters/SqliteStateStore/Replay.antt =====
-- The journal's replay: one more event is one more step, and the revisions that a replay has read.
use native.Mathlib.Nat.{add-zero}
use alicerce.Prelude.{
  ℕ, suc, ◌+◌, ◌<◌, ◌≡◌, refl, ap, false, not, Option, List, [], ◌∷◌, ◌++◌, ◌==◌, ==_iff, eq_self,
  nat_eq, Bytes, All, All-mono, length, arith, Text,
}
use alicerce.Errors.{Result, ok, bind_ok, raise_if_ok}
use alicerce.DateTime.{DateTime}
use alicerce.Domain.Contracts.{FinalStates}
use alicerce.Domain.RunIdentity.{RunIdentity}
use alicerce.Domain.Lifecycle.{
  LifecycleState, LifecycleActor, LifecycleAdvance, LifecycleTransition, lifecycle_transition_eq,
  advance_lifecycle,
}
use alicerce.Domain.Lifecycle.Advance.{Permits, advanced, advance_accepts}
use alicerce.Domain.Lifecycle.Refusal.{advance_sound}
use alicerce.Domain.State.{RunCheckpoint, new_run_checkpoint}
use alicerce.Domain.State.Updates.{new_run_checkpoint_sound}
use alicerce.Adapters.StateCodec.{StateCodec}
use alicerce.Adapters.SqliteStateStore.Validation.{replay_step, replay, corrupt}

suc_shift : (n : ℕ) (rows : List (ℕ × Bytes)) → n + suc (length rows) ≡ suc n + length rows
suc_shift n rows = omega arith

module _ ⦃canonical : FinalStates⦄ ⦃codec : StateCodec⦄ (identity : RunIdentity) where
  -- What one step has checked, and what it leads to.
  pub record IsStep (c : RunCheckpoint) (n : ℕ) (r : ℕ × Bytes) (d : RunCheckpoint)
      (e : LifecycleTransition) : Type 0 where
    pub numbered : r.0 ≡ n
    pub counted : d.lifecycle.revision ≡ c.lifecycle.revision + 1
    pub same : d.identity ≡ identity

  IsStep-facts :
      (c : RunCheckpoint) (n : ℕ) (r : ℕ × Bytes) (d : RunCheckpoint)
      (e event : LifecycleTransition) (a : LifecycleAdvance) (next : RunCheckpoint)
      → not (r.0 == n) ≡ false
      → a.lifecycle.revision ≡ c.lifecycle.revision + 1
      → next ≡ record { identity = identity; lifecycle = a.lifecycle }
      → ◌≡◌ {A = Result (RunCheckpoint × LifecycleTransition)} (ok (next, event)) (ok (d, e))
      → IsStep c n r d e
  IsStep-facts c n r d e event a next numbered counted shape result = record {
    numbered = ground (arith, ==_iff r.0 n);
    counted = cc;
    same = cc;
  }

  IsStep-sound :
      (c : RunCheckpoint) (n : ℕ) (r : ℕ × Bytes) (d : RunCheckpoint) (e : LifecycleTransition)
      → replay_step identity c n r ≡ ok (d, e)
      → IsStep c n r d e
  unfolding replay_step
  IsStep-sound c n r d e h =
      let (numbered, h1) = raise_if_ok (not (r.0 == n)) corrupt _ h in
      let (event, read, h2) = bind_ok (codec.deserialize_transition r.1) _ h1 in
      let (a, made, h3) =
        bind_ok
          (advance_lifecycle c.lifecycle event.to_state event.occurred_at event.actor
            event.final_state)
          _ h2 in
      let (same, h4) = raise_if_ok (not (a.transition == event)) corrupt _ h3 in
      let (next, built, h5) = bind_ok (new_run_checkpoint identity a.lifecycle) _ h4 in
      let (p, result) =
        advance_sound c.lifecycle event.to_state event.occurred_at event.actor event.final_state
          made in
      let (shape, _, _) = new_run_checkpoint_sound identity a.lifecycle built in
      IsStep-facts c n r d e event a next numbered
        (unfold advanced in ap (λ (x : LifecycleAdvance). x.lifecycle.revision) result) shape h5

  pub step_accepts :
      (c : RunCheckpoint) (n : ℕ) (b : Bytes) (d : RunCheckpoint) (target : LifecycleState)
      (at : DateTime) (actor : LifecycleActor) (f : Option Text)
      → Permits c.lifecycle target at f
      → let a = advanced c.lifecycle target at actor f in
        (codec.deserialize_transition b ≡ ok a.transition)
        → new_run_checkpoint identity a.lifecycle ≡ ok d
        → replay_step identity c n (n, b) ≡ ok (d, a.transition)
  unfolding replay_step advanced
  step_accepts c n b d target at actor f p read made = rw (
    eq_self n,
    read,
    advance_accepts c.lifecycle target at actor f p,
    eq_self (advanced c.lifecycle target at actor f).transition,
    made,
  )

  pub replay_cons :
      (c d last : RunCheckpoint) (n : ℕ) (r : ℕ × Bytes) (rows : List (ℕ × Bytes))
      (e : LifecycleTransition) (es : List LifecycleTransition)
      → replay_step identity c n r ≡ ok (d, e)
      → replay identity d (suc n) rows ≡ ok (last, es)
      → replay identity c n (r ∷ rows) ≡ ok (last, e ∷ es)
  unfolding replay
  replay_cons c d last n r rows e es p q = rw (p, q)

  replay_last :
      (m : Result (RunCheckpoint × List LifecycleTransition)) {d last : RunCheckpoint}
      {es fs gs : List LifecycleTransition}
      → ◌≡◌ {A = Result (RunCheckpoint × List LifecycleTransition)} (ok (d, fs)) (ok (last, gs))
      → m ≡ ok (d, es)
      → m ≡ ok (last, es)
  replay_last m h q = cc

  ok_snd :
      {d last : RunCheckpoint} {fs gs : List LifecycleTransition}
      → ◌≡◌ {A = Result (RunCheckpoint × List LifecycleTransition)} (ok (d, fs)) (ok (last, gs))
      → gs ≡ fs
  ok_snd h = cc

  replay_uncons :
      (c last : RunCheckpoint) (n : ℕ) (r : ℕ × Bytes) (rows : List (ℕ × Bytes))
      (es : List LifecycleTransition)
      → replay identity c n (r ∷ rows) ≡ ok (last, es)
      → (d : RunCheckpoint) × (e : LifecycleTransition) × (rest : List LifecycleTransition)
        × (replay_step identity c n r ≡ ok (d, e))
        × (replay identity d (suc n) rows ≡ ok (last, rest))
        × (es ≡ e ∷ rest)
  unfolding replay
  replay_uncons c last n r rows es h =
      let (first, p, k) = bind_ok (replay_step identity c n r) _ h in
      let (others, q, m) = bind_ok (replay identity first.0 (suc n) rows) _ k in
      (
        first.0,
        first.1,
        others.1,
        p,
        replay_last (replay identity first.0 (suc n) rows) m q,
        ok_snd m,
      )

  -- Every revision read is below the next one, which the last snapshot carries.
  pub record IsRead (c : RunCheckpoint) (n : ℕ) (rows : List (ℕ × Bytes)) (last : RunCheckpoint)
      : Type 0 where
    pub below : All (λ (r : ℕ × Bytes). r.0 < n + length rows) rows
    pub counted : last.lifecycle.revision ≡ c.lifecycle.revision + length rows

  pub replay-IsRead :
      (c last : RunCheckpoint) (n : ℕ) (rows : List (ℕ × Bytes)) (es : List LifecycleTransition)
      → replay identity c n rows ≡ ok (last, es)
      → IsRead c n rows last
  unfolding replay
  replay-IsRead c last n [] es h = record { below = tt; counted = ground arith }
  replay-IsRead c last n (r ∷ rows) es h =
      let (d, e, rest, p, q, _) = replay_uncons c last n r rows es h in
      let step = IsStep-sound c n r d e p in
      let ih = replay-IsRead d last (suc n) rows rest q in
      record {
        below = (
          omega (arith, step.numbered),
          All-mono (λ (x : ℕ × Bytes) (under : x.0 < suc n + length rows). omega arith) rows
              ih.below,
        );
        counted = omega (arith, ih.counted, step.counted);
      }

  read_nothing :
      (c last : RunCheckpoint) (n : ℕ) (es : List LifecycleTransition)
      → replay identity c n [] ≡ ok (last, es)
      → (c ≡ last) × (es ≡ [])
  unfolding replay
  read_nothing c last n es h = (cc, cc)

  -- One more row is one more step from the last checkpoint.
  pub replay-append :
      (c last d : RunCheckpoint) (n : ℕ) (rows : List (ℕ × Bytes)) (es : List LifecycleTransition)
      (r : ℕ × Bytes) (e : LifecycleTransition)
      → replay identity c n rows ≡ ok (last, es)
      → replay_step identity last (n + length rows) r ≡ ok (d, e)
      → replay identity c n (rows ++ r ∷ []) ≡ ok (d, es ++ e ∷ [])
  replay-append c last d n [] es r e h p =
      let (here, none_yet) = read_nothing c last n es h in
      let p1 : replay_step identity c n r ≡ ok (d, e) = rw (← here, add-zero) at p in
      rw none_yet (replay_cons c d d n r [] e [] p1 (unfold replay in refl))
  replay-append c last d n (x ∷ rows) es r e h p =
      let (d1, e1, rest, p1, q1, same) = replay_uncons c last n x rows es h in
      rw same (
        replay_cons c d1 d n x (rows ++ r ∷ []) e1 (rest ++ e ∷ []) p1
          (replay-append d1 last d (suc n) rows rest r e q1 (rw (← suc_shift n rows) p)))
