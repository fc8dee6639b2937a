-- ===== src/Adapters/StateSerialization.antt =====
-- src/alicerce/adapters/local/state_serialization.py: run state as canonical JSON bytes. The text
-- of a value is that of Json; the hooks of `json.loads`, the payloads, their headers and the
-- timestamps are modelled.
pub mod Timestamp
pub mod Fields
pub mod RoundTrip
pub mod Codec
use alicerce.Prelude.{
  ◌+◌, Bool, true, false, not, Option, none, some, List, [], ◌∷◌, ℤ, pos, int_eq, ◌==◌, elem, Text,
  Bytes, text, nat_eq, list_eq, if◌then◌else◌,
}
use alicerce.Errors.{
  reraise, Exn, Result, ok, err, ◌>>=◌, ◌>>◌, raise_if, or_raise, value_error, decode_error,
  state_serialization_error, is_type_or_value_error,
}
use alicerce.DateTime.{DateTime}
use alicerce.Domain.Contracts.{FinalStates}
use alicerce.Domain.RunIdentity.{
  RunIdentity, new_run_id, new_contract_id, new_contract_version, new_contract_hash,
  new_baseline_sha, new_policy_hash, new_run_identity,
}
use alicerce.Domain.Lifecycle.{
  LifecycleState, contract_bound, workspace_prepared, building, verifying, deciding, review_pending,
  completed, LifecycleTransition, new_lifecycle_actor, new_run_lifecycle, new_lifecycle_transition,
}
use alicerce.Domain.State.{RunCheckpoint, new_run_checkpoint}
use alicerce.Json.{
  Json, null_value, boolean, integer, number, constant, string, array, object, Items, no_items,
  item, Members, no_members, member, json_eq, keys, get, has_keys, JsonText,
}
use Timestamp.{timestamp, parse_timestamp}
use Fields.{
  state_format_version, identity_format, checkpoint_format, transition_format, undecodable,
  invalid_values, require_object, object_with, require_string, optional_string, require_integer,
  require_header, state_value, find_state, state_of, optional_json, text_field, get_text,
  get_integer, get_timestamp, get_optional, get_state, apply_hooks, hook_items, hook_members,
}

-- `_identity_payload`
unfoldable pub identity_payload : RunIdentity → Result Json
identity_payload trusted = do
  created_at ← timestamp trusted.created_at
  ok (
      object (
        text_field (text "baseline_sha") trusted.baseline_sha.value (
          text_field (text "contract_hash") trusted.contract_hash.value (
            text_field (text "contract_id") trusted.contract_id.value (
              text_field (text "contract_version") trusted.contract_version.value (
                text_field (text "created_at") created_at (
                  text_field (text "format") identity_format (
                    text_field (text "policy_hash") trusted.policy_hash.value (
                      text_field (text "run_id") trusted.run_id.value
                        (member (text "version") (integer state_format_version) no_members))))))))))

abbrev pub identity_keys : List Text
identity_keys =
    text "baseline_sha"
    ∷ text "contract_hash"
    ∷ text "contract_id"
    ∷ text "contract_version"
    ∷ text "created_at"
    ∷ text "format"
    ∷ text "policy_hash"
    ∷ text "run_id"
    ∷ text "version"
    ∷ []

-- `_identity_from_payload`
unfoldable pub identity_from_payload : Json → Result RunIdentity
unfolding object_with require_header invalid_values get_text get_timestamp
identity_from_payload value = do
  payload ← object_with identity_keys value
  require_header identity_format payload
  reraise invalid_values (do
    run_text ← get_text (text "run_id") payload
    run_id ← new_run_id run_text
    id_text ← get_text (text "contract_id") payload
    contract_id ← new_contract_id id_text
    version_text ← get_text (text "contract_version") payload
    contract_version ← new_contract_version version_text
    hash_text ← get_text (text "contract_hash") payload
    contract_hash ← new_contract_hash hash_text
    baseline_text ← get_text (text "baseline_sha") payload
    baseline_sha ← new_baseline_sha baseline_text
    policy_text ← get_text (text "policy_hash") payload
    policy_hash ← new_policy_hash policy_text
    created_at ← get_timestamp (text "created_at") payload
    new_run_identity run_id contract_id contract_version contract_hash baseline_sha policy_hash
        created_at)

abbrev pub checkpoint_keys : List Text
checkpoint_keys =
    text "final_state"
    ∷ text "format"
    ∷ text "identity"
    ∷ text "revision"
    ∷ text "state"
    ∷ text "updated_at"
    ∷ text "version"
    ∷ []

-- The argument of `_dump` in `serialize_checkpoint`.
unfoldable pub checkpoint_payload : RunCheckpoint → Result Json
unfolding state_value
checkpoint_payload trusted = do
  let lifecycle = trusted.lifecycle
  identity ← identity_payload trusted.identity
  updated_at ← timestamp lifecycle.updated_at
  ok (
      object (
        member (text "final_state") (optional_json lifecycle.final_state) (
          text_field (text "format") checkpoint_format (
            member (text "identity") identity (
              member (text "revision") (integer (pos lifecycle.revision)) (
                text_field (text "state") (state_value lifecycle.state) (
                  text_field (text "updated_at") updated_at
                    (member (text "version") (integer state_format_version) no_members))))))))

abbrev pub transition_keys : List Text
transition_keys =
    text "actor"
    ∷ text "final_state"
    ∷ text "format"
    ∷ text "from_state"
    ∷ text "occurred_at"
    ∷ text "revision"
    ∷ text "run_id"
    ∷ text "to_state"
    ∷ text "version"
    ∷ []

-- The argument of `_dump` in `serialize_transition`.
unfoldable pub transition_payload : LifecycleTransition → Result Json
unfolding state_value
transition_payload trusted = do
  occurred_at ← timestamp trusted.occurred_at
  ok (
      object (
        text_field (text "actor") trusted.actor.value (
          member (text "final_state") (optional_json trusted.final_state) (
            text_field (text "format") transition_format (
              text_field (text "from_state") (state_value trusted.from_state) (
                text_field (text "occurred_at") occurred_at (
                  member (text "revision") (integer (pos trusted.revision)) (
                    text_field (text "run_id") trusted.run_id.value (
                      text_field (text "to_state") (state_value trusted.to_state)
                        (member (text "version") (integer state_format_version) no_members))))))))))

module _ ⦃canonical : FinalStates⦄ where
  -- `deserialize_checkpoint` after `_load`
  unfoldable pub checkpoint_from_payload : Json → Result RunCheckpoint
  unfolding object_with require_header invalid_values get_state get_integer get_timestamp
      get_optional
  checkpoint_from_payload value = do
    payload ← object_with checkpoint_keys value
    require_header checkpoint_format payload
    reraise invalid_values (do
      inner ← get (text "identity") payload
      identity ← identity_from_payload inner
      state ← get_state (text "state") payload
      revision ← get_integer (text "revision") payload
      updated_at ← get_timestamp (text "updated_at") payload
      final_state ← get_optional (text "final_state") payload
      lifecycle ← new_run_lifecycle identity.run_id state revision updated_at final_state
      new_run_checkpoint identity lifecycle)

  -- `deserialize_transition` after `_load`
  unfoldable pub transition_from_payload : Json → Result LifecycleTransition
  unfolding object_with require_header invalid_values get_state get_integer get_timestamp
      get_optional
  transition_from_payload value = do
    payload ← object_with transition_keys value
    require_header transition_format payload
    reraise invalid_values (do
      run_text ← get_text (text "run_id") payload
      run_id ← new_run_id run_text
      revision ← get_integer (text "revision") payload
      from_state ← get_state (text "from_state") payload
      to_state ← get_state (text "to_state") payload
      occurred_at ← get_timestamp (text "occurred_at") payload
      actor_text ← get_text (text "actor") payload
      actor ← new_lifecycle_actor actor_text
      final_state ← get_optional (text "final_state") payload
      new_lifecycle_transition run_id revision from_state to_state occurred_at actor final_state)

module _ ⦃json : JsonText⦄ where
  -- `_dump`
  unfoldable pub dump : Json → Result Bytes
  dump value = or_raise (json.dumps value) state_serialization_error

  -- `_load`
  unfoldable pub load : Bytes → Result Json
  unfolding undecodable apply_hooks hook_items hook_members require_object dump
  load bytes = do
    value ← reraise undecodable (do found ← json.loads bytes; apply_hooks found)
    members ← require_object value
    written ← dump (object members)
    raise_if (not (written == bytes)) state_serialization_error
    ok (object members)

  unfoldable pub serialize_run_identity : RunIdentity → Result Bytes
  unfolding identity_payload
  serialize_run_identity identity = do payload ← identity_payload identity; dump payload

  unfoldable pub deserialize_run_identity : Bytes → Result RunIdentity
  deserialize_run_identity bytes = do value ← load bytes; identity_from_payload value

  unfoldable pub serialize_checkpoint : RunCheckpoint → Result Bytes
  serialize_checkpoint checkpoint = do payload ← checkpoint_payload checkpoint; dump payload

  unfoldable pub serialize_transition : LifecycleTransition → Result Bytes
  serialize_transition transition = do payload ← transition_payload transition; dump payload

  module _ ⦃canonical : FinalStates⦄ where
    unfoldable pub deserialize_checkpoint : Bytes → Result RunCheckpoint
    deserialize_checkpoint bytes = do value ← load bytes; checkpoint_from_payload value

    unfoldable pub deserialize_transition : Bytes → Result LifecycleTransition
    deserialize_transition bytes = do value ← load bytes; transition_from_payload value
