-- ===== src/Adapters/StateSerialization/Codec.antt =====
-- The bytes of run state, and the interface of the store filled with the functions of this module.
use mathlib.Core.Path.{subst}
use alicerce.Prelude.{
  ◌≡◌, refl, sym, ap, ◌∙◌, true, Option, none, some, ◌==◌, eq_self, elem, Text, Bytes,
  list-discrete, ℕ_discrete, is_canonical, no_duplicates, sorted, nat_eq, list_eq, arith,
}
use alicerce.Errors.{ok, bind_ok, or_raise_ok}
use alicerce.Domain.Contracts.{FinalStates}
use alicerce.Domain.RunIdentity.{RunIdentity}
use alicerce.Domain.Lifecycle.{LifecycleTransition}
use alicerce.Domain.State.{RunCheckpoint}
use alicerce.Json.{Json, object, Members, is_sorted, JsonText}
use alicerce.Adapters.StateCodec.{StateCodec}
use alicerce.Adapters.StateSerialization.Timestamp.{timestamp}
use alicerce.Adapters.StateSerialization.RoundTrip.{
  IsIdentity, IsState, IsEvent, identity_json, checkpoint_json, transition_json, identity_read,
  checkpoint_read, transition_read,
}
use alicerce.Adapters.StateSerialization.Fields.{optional_json, apply_hooks, require_object}
use alicerce.Adapters.StateSerialization.{
  identity_payload, checkpoint_payload, transition_payload, dump, load, serialize_run_identity,
  deserialize_run_identity, serialize_checkpoint, deserialize_checkpoint, serialize_transition,
  deserialize_transition,
}

abbrev Plain : Json → Type 0
Plain v = (is_sorted v ≡ true) × (apply_hooks v ≡ ok v)

identity-Plain : (x : RunIdentity) (t : Text) → Plain (identity_json x t)
unfolding is_sorted apply_hooks is_canonical sorted no_duplicates elem ◌==◌ list-discrete ℕ_discrete
identity-Plain x t = (refl, refl)

optional-Plain : (f : Option Text) → Plain (optional_json f)
unfolding is_sorted apply_hooks
optional-Plain none = (refl, refl)
optional-Plain (some value) = (refl, refl)

checkpoint-Plain :
    (c : RunCheckpoint) (t u : Text) → Plain (checkpoint_json c (identity_json c.identity t) u)
unfolding is_sorted apply_hooks is_canonical sorted no_duplicates elem ◌==◌ list-discrete ℕ_discrete
checkpoint-Plain c t u =
    let (ordered, kept) = optional-Plain c.lifecycle.final_state in (rw ordered, rw kept)

transition-Plain : (e : LifecycleTransition) (t : Text) → Plain (transition_json e t)
unfolding is_sorted apply_hooks is_canonical sorted no_duplicates elem ◌==◌ list-discrete ℕ_discrete
transition-Plain e t = let (ordered, kept) = optional-Plain e.final_state in (rw ordered, rw kept)

identity_payload-json :
    (x : RunIdentity) (v : Json)
    → identity_payload x ≡ ok v
    → (t : Text) × (timestamp x.created_at ≡ ok t) × (identity_json x t ≡ v)
unfolding identity_payload
identity_payload-json x v p =
    let (t, stamped, same) = bind_ok (timestamp x.created_at) _ p in (t, stamped, ground arith)

checkpoint_payload-json :
    (c : RunCheckpoint) (v : Json)
    → checkpoint_payload c ≡ ok v
    → (t : Text) × (u : Text) × (timestamp c.identity.created_at ≡ ok t)
      × (timestamp c.lifecycle.updated_at ≡ ok u)
      × (checkpoint_json c (identity_json c.identity t) u ≡ v)
unfolding checkpoint_payload
checkpoint_payload-json c v p =
    let (i, p1, p2) = bind_ok (identity_payload c.identity) _ p in
    let (t, created, here) = identity_payload-json c.identity i p1 in
    let (u, updated, same) = bind_ok (timestamp c.lifecycle.updated_at) _ p2 in
    let there : checkpoint_json c i u ≡ v = ground arith in
    (t, u, created, updated, ap (λ j. checkpoint_json c j u) here ∙ there)

transition_payload-json :
    (e : LifecycleTransition) (v : Json)
    → transition_payload e ≡ ok v
    → (t : Text) × (timestamp e.occurred_at ≡ ok t) × (transition_json e t ≡ v)
unfolding transition_payload
transition_payload-json e v p =
    let (t, stamped, same) = bind_ok (timestamp e.occurred_at) _ p in (t, stamped, ground arith)

module _ ⦃json : JsonText⦄ where
  dumped : (v : Json) (b : Bytes) → dump v ≡ ok b → json.dumps v ≡ some b
  unfolding dump
  dumped v b h = or_raise_ok (json.dumps v) _ h

  load-dump :
      (members : Members) (b : Bytes)
      → Plain (object members)
      → dump (object members) ≡ ok b
      → load b ≡ ok (object members)
  unfolding load require_object
  load-dump members b (ordered, kept) h = rw (
    json.loads-dumps (object members) b ordered (dumped (object members) b h),
    kept,
    h,
    eq_self b,
  )

  -- An identity that its constructors accept is read back from its bytes.
  pub deserialize_run_identity-serialize_run_identity :
      (x : RunIdentity) (b : Bytes)
      → IsIdentity x
      → serialize_run_identity x ≡ ok b
      → deserialize_run_identity b ≡ ok x
  unfolding serialize_run_identity deserialize_run_identity
  deserialize_run_identity-serialize_run_identity x b h made =
      let (v, p, q) = bind_ok (identity_payload x) dump made in
      let (t, stamped, here) = identity_payload-json x v p in
      let written = subst (λ y. dump y ≡ ok b) (sym here) q in
      rw (load-dump _ b (identity-Plain x t) written, identity_read x t h stamped)

  module _ ⦃canonical : FinalStates⦄ where
    -- A checkpoint that its constructors accept is read back from its bytes.
    pub deserialize_checkpoint-serialize_checkpoint :
        (c : RunCheckpoint) (b : Bytes)
        → IsState c
        → serialize_checkpoint c ≡ ok b
        → deserialize_checkpoint b ≡ ok c
    unfolding serialize_checkpoint deserialize_checkpoint
    deserialize_checkpoint-serialize_checkpoint c b h made =
        let (v, p, q) = bind_ok (checkpoint_payload c) dump made in
        let (t, u, created, updated, here) = checkpoint_payload-json c v p in
        let written = subst (λ y. dump y ≡ ok b) (sym here) q in
        rw (load-dump _ b (checkpoint-Plain c t u) written, checkpoint_read c t u h created updated)

    -- A transition that its constructor accepts is read back from its bytes.
    pub deserialize_transition-serialize_transition :
        (e : LifecycleTransition) (b : Bytes)
        → IsEvent e
        → serialize_transition e ≡ ok b
        → deserialize_transition b ≡ ok e
    unfolding serialize_transition deserialize_transition
    deserialize_transition-serialize_transition e b h made =
        let (v, p, q) = bind_ok (transition_payload e) dump made in
        let (t, stamped, here) = transition_payload-json e v p in
        let written = subst (λ y. dump y ≡ ok b) (sym here) q in
        rw (load-dump _ b (transition-Plain e t) written, transition_read e t h stamped)

    -- The functions of the module, as the store uses them.
    abbrev pub state_codec : StateCodec
    state_codec = record {
      serialize_run_identity = serialize_run_identity;
      deserialize_run_identity = deserialize_run_identity;
      serialize_checkpoint = serialize_checkpoint;
      deserialize_checkpoint = deserialize_checkpoint;
      serialize_transition = serialize_transition;
      deserialize_transition = deserialize_transition;
      IdentityFits = IsIdentity;
      CheckpointFits = IsState;
      TransitionFits = IsEvent;
      identity_round_trip = deserialize_run_identity-serialize_run_identity;
      checkpoint_round_trip = deserialize_checkpoint-serialize_checkpoint;
      transition_round_trip = deserialize_transition-serialize_transition;
    }
