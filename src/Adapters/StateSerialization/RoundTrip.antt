-- ===== src/Adapters/StateSerialization/RoundTrip.antt =====
-- The payloads that are written, and what is read from them.
use alicerce.Prelude.{
  ◌≡◌, refl, Option, none, some, pos, ◌==◌, elem, Text, text, list-discrete, ℕ_discrete, ℤ-discrete,
  nat_eq, list_eq,
}
use alicerce.Errors.{ok}
use alicerce.Domain.Contracts.{FinalStates}
use alicerce.Domain.RunIdentity.{
  RunIdentity, new_run_id, new_contract_id, new_contract_version, new_contract_hash,
  new_baseline_sha, new_policy_hash, new_run_identity,
}
use alicerce.Domain.Lifecycle.{
  LifecycleState, contract_bound, workspace_prepared, building, verifying, deciding, review_pending,
  completed, LifecycleTransition, new_lifecycle_actor, new_run_lifecycle,
}
use alicerce.Domain.Lifecycle.Advance.{
  IsLifecycle, IsTransition, new_run_lifecycle-accepts, new_lifecycle_transition-accepts,
}
use alicerce.Domain.State.{RunCheckpoint}
use alicerce.Domain.State.Updates.{IsCheckpoint, new_run_checkpoint-accepts}
use alicerce.Json.{Json, object, member, no_members, integer, has_keys, Json-discrete}
use alicerce.Adapters.StateSerialization.Timestamp.{timestamp, IsInstant, parse_timestamp-timestamp}
use alicerce.Adapters.StateSerialization.Fields.{
  checkpoint_format, transition_format, state_value, state_of, optional_json, optional_string,
  identity_format, state_format_version, text_field, require_string,
}
use alicerce.Adapters.StateSerialization.{
  checkpoint_from_payload, transition_from_payload, identity_from_payload,
}

-- What the constructors leave true of an identity: each identifier has its form, and the instant is
-- one in UTC.
pub record IsIdentity (x : RunIdentity) : Type 0 where
  pub run : new_run_id x.run_id.value ≡ ok x.run_id
  pub contract : new_contract_id x.contract_id.value ≡ ok x.contract_id
  pub version : new_contract_version x.contract_version.value ≡ ok x.contract_version
  pub hash : new_contract_hash x.contract_hash.value ≡ ok x.contract_hash
  pub baseline : new_baseline_sha x.baseline_sha.value ≡ ok x.baseline_sha
  pub policy : new_policy_hash x.policy_hash.value ≡ ok x.policy_hash
  pub created : IsInstant x.created_at

abbrev pub identity_json : RunIdentity → Text → Json
identity_json x created_at = object (
    text_field (text "baseline_sha") x.baseline_sha.value (
      text_field (text "contract_hash") x.contract_hash.value (
        text_field (text "contract_id") x.contract_id.value (
          text_field (text "contract_version") x.contract_version.value (
            text_field (text "created_at") created_at (
              text_field (text "format") identity_format (
                text_field (text "policy_hash") x.policy_hash.value (
                  text_field (text "run_id") x.run_id.value
                    (member (text "version") (integer state_format_version) no_members)))))))))

pub identity_read :
    (x : RunIdentity) (t : Text)
    → IsIdentity x
    → timestamp x.created_at ≡ ok t
    → identity_from_payload (identity_json x t) ≡ ok x
unfolding identity_from_payload new_run_identity has_keys elem ◌==◌ list-discrete ℕ_discrete
    ℤ-discrete Json-discrete
identity_read x t h made = rw (
  h.run,
  h.contract,
  h.version,
  h.hash,
  h.baseline,
  h.policy,
  parse_timestamp-timestamp x.created_at t h.created made,
  h.created.zone,
)

-- The optional final state, the revision and the state of a snapshot.
state_of-value : (s : LifecycleState) → state_of (state_value s) ≡ ok s
unfolding state_of state_value ◌==◌ list-discrete ℕ_discrete
state_of-value contract_bound = refl
state_of-value workspace_prepared = refl
state_of-value building = refl
state_of-value verifying = refl
state_of-value deciding = refl
state_of-value review_pending = refl
state_of-value completed = refl

optional_string-json : (f : Option Text) → optional_string (optional_json f) ≡ ok f
unfolding optional_string require_string
optional_string-json none = refl
optional_string-json (some value) = refl

abbrev pub checkpoint_json : RunCheckpoint → Json → Text → Json
checkpoint_json c identity updated_at = object (
    member (text "final_state") (optional_json c.lifecycle.final_state) (
      text_field (text "format") checkpoint_format (
        member (text "identity") identity (
          member (text "revision") (integer (pos c.lifecycle.revision)) (
            text_field (text "state") (state_value c.lifecycle.state) (
              text_field (text "updated_at") updated_at
                (member (text "version") (integer state_format_version) no_members)))))))

abbrev pub transition_json : LifecycleTransition → Text → Json
transition_json e occurred_at = object (
    text_field (text "actor") e.actor.value (
      member (text "final_state") (optional_json e.final_state) (
        text_field (text "format") transition_format (
          text_field (text "from_state") (state_value e.from_state) (
            text_field (text "occurred_at") occurred_at (
              member (text "revision") (integer (pos e.revision)) (
                text_field (text "run_id") e.run_id.value (
                  text_field (text "to_state") (state_value e.to_state)
                    (member (text "version") (integer state_format_version) no_members)))))))))

module _ ⦃canonical : FinalStates⦄ where
  -- A checkpoint that its constructors accept, of such an identity.
  pub record IsState (c : RunCheckpoint) : Type 0 where
    pub identity : IsIdentity c.identity
    pub lifecycle : IsLifecycle c.lifecycle
    pub checkpoint : IsCheckpoint c
    pub updated : IsInstant c.lifecycle.updated_at

  -- A transition that its constructor accepts, with identifiers of their form.
  pub record IsEvent (e : LifecycleTransition) : Type 0 where
    pub run : new_run_id e.run_id.value ≡ ok e.run_id
    pub actor : new_lifecycle_actor e.actor.value ≡ ok e.actor
    pub transition : IsTransition e
    pub occurred : IsInstant e.occurred_at

  pub checkpoint_read :
      (c : RunCheckpoint) (t u : Text)
      → IsState c
      → timestamp c.identity.created_at ≡ ok t
      → timestamp c.lifecycle.updated_at ≡ ok u
      → checkpoint_from_payload (checkpoint_json c (identity_json c.identity t) u) ≡ ok c
  unfolding checkpoint_from_payload has_keys elem ◌==◌ list-discrete ℕ_discrete ℤ-discrete
      Json-discrete
  checkpoint_read c t u h made written =
      let lifecycle : new_run_lifecycle c.identity.run_id c.lifecycle.state
            (pos c.lifecycle.revision) c.lifecycle.updated_at c.lifecycle.final_state
          ≡ ok c.lifecycle =
        rw h.checkpoint.same_run (new_run_lifecycle-accepts c.lifecycle h.lifecycle) in
      rw (
        identity_read c.identity t h.identity made,
        state_of-value c.lifecycle.state,
        parse_timestamp-timestamp c.lifecycle.updated_at u h.updated written,
        optional_string-json c.lifecycle.final_state,
        lifecycle,
        new_run_checkpoint-accepts c h.checkpoint,
      )

  pub transition_read :
      (e : LifecycleTransition) (t : Text)
      → IsEvent e
      → timestamp e.occurred_at ≡ ok t
      → transition_from_payload (transition_json e t) ≡ ok e
  unfolding transition_from_payload has_keys elem ◌==◌ list-discrete ℕ_discrete ℤ-discrete
      Json-discrete
  transition_read e t h made = rw (
    h.run,
    state_of-value e.from_state,
    state_of-value e.to_state,
    parse_timestamp-timestamp e.occurred_at t h.occurred made,
    h.actor,
    optional_string-json e.final_state,
    new_lifecycle_transition-accepts e h.transition,
  )
