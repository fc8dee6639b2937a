-- ===== src/Tests/Serialization.antt =====
-- The serialization on texts that are written for one value each.
use alicerce.Prelude.{
  ◌≡◌, refl, ap, inl, inr, true, Option, none, some, [], ◌∷◌, ◌==◌, eq→path, eq_self, Bool-cases,
  Text, Bytes, text, list_eq, nat_eq, list-discrete, ℕ_discrete, if◌then◌else◌, arith,
}
use alicerce.Errors.{Result, ok}
use alicerce.DateTime.{before}
use alicerce.Domain.Patterns.{
  run_id_pattern, sha256_pattern, object_sha_pattern, component_pattern, matches_name, matches_hex,
  strip,
}
use alicerce.Domain.RunIdentity.{
  require_pattern, new_run_id, new_contract_id, new_contract_version, new_contract_hash,
  new_baseline_sha, new_policy_hash,
}
use alicerce.Domain.Lifecycle.{new_lifecycle_actor}
use alicerce.Json.{Json, json_eq, is_sorted, JsonText}
use alicerce.Adapters.StateSerialization.Timestamp.Parts.{pair}
use alicerce.Adapters.StateSerialization.Timestamp.{
  timestamp, parse_timestamp, format, is_date, days_in_month, is_leap, IsInstant,
  parse_timestamp-timestamp, timestamp-parse_timestamp,
}
use alicerce.Adapters.StateSerialization.RoundTrip.{
  IsIdentity, IsState, IsEvent, identity_json, checkpoint_json, transition_json,
}
use alicerce.Adapters.StateSerialization.{
  identity_payload, checkpoint_payload, transition_payload, dump, serialize_run_identity,
  serialize_checkpoint, serialize_transition, deserialize_run_identity, deserialize_checkpoint,
  deserialize_transition,
}
use alicerce.Adapters.StateSerialization.Codec.{
  deserialize_run_identity-serialize_run_identity, deserialize_checkpoint-serialize_checkpoint,
  deserialize_transition-serialize_transition,
}
use alicerce.Tests.Samples.{noon, later, identity, second_checkpoint, prepared_event, final_states}

-- The texts of one value.
abbrev dumps_of : Json → Json → Option Bytes
dumps_of value other = if value == other then some (1 ∷ []) else none

loads_of-dumps_of :
    (value other : Json) (bytes : Bytes)
    → is_sorted other ≡ true
    → dumps_of value other ≡ some bytes
    → (let r : Result Json = ok value in r) ≡ ok other
loads_of-dumps_of value other bytes ordered h = elim (Bool-cases (value == other)) [
  | inl same ↦ ap (λ x. let r : Result Json = ok x in r) (eq→path value other same)
  | inr different ↦ absurd (nothing (rw different at h))
]
  where
    nothing : none ≡ some bytes → ⊥
    nothing e = absurd (ground arith)

abbrev text_of : Json → JsonText
text_of value = record {
  dumps = dumps_of value;
  loads = λ _. ok value;
  loads-dumps = loads_of-dumps_of value;
}

abbrev noon_text : Text
noon_text = text "2026-07-24T12:00:00.000000Z"

abbrev later_text : Text
later_text = text "2026-07-24T12:05:00.000000Z"

noon_stamp : timestamp noon ≡ ok noon_text
unfolding timestamp format pair
noon_stamp = refl

noon-IsInstant : IsInstant noon
unfolding is_date days_in_month is_leap ◌==◌ ℕ_discrete
noon-IsInstant = record { zone = refl; real = refl }

later-IsInstant : IsInstant later
unfolding is_date days_in_month is_leap ◌==◌ ℕ_discrete
later-IsInstant = record { zone = refl; real = refl }

parse_timestamp-timestamp_example : parse_timestamp noon_text ≡ ok noon
parse_timestamp-timestamp_example =
    parse_timestamp-timestamp noon noon_text noon-IsInstant noon_stamp

timestamp-parse_timestamp_example : IsInstant noon × (timestamp noon ≡ ok noon_text)
timestamp-parse_timestamp_example =
    timestamp-parse_timestamp noon_text noon parse_timestamp-timestamp_example

identity-IsIdentity : IsIdentity identity
unfolding new_run_id new_contract_id new_contract_version new_contract_hash new_baseline_sha
    new_policy_hash run_id_pattern sha256_pattern object_sha_pattern matches_name matches_hex
    require_pattern strip ◌==◌ list-discrete ℕ_discrete
identity-IsIdentity = record {
  run = refl;
  contract = refl;
  version = refl;
  hash = refl;
  baseline = refl;
  policy = refl;
  created = noon-IsInstant;
}

second-IsState : IsState second_checkpoint
unfolding before
second-IsState = record {
  identity = identity-IsIdentity;
  lifecycle = record { time = refl; final = omega arith };
  checkpoint = record { same_run = refl; not_early = refl };
  updated = later-IsInstant;
}

prepared-IsEvent : IsEvent prepared_event
unfolding new_run_id new_lifecycle_actor run_id_pattern component_pattern matches_name
    require_pattern strip ◌==◌ list-discrete ℕ_discrete
prepared-IsEvent = record {
  run = refl;
  actor = refl;
  transition = record { time = refl; final = omega arith };
  occurred = later-IsInstant;
}

identity_written :
    serialize_run_identity ⦃json = text_of (identity_json identity noon_text)⦄ identity
    ≡ ok (1 ∷ [])
unfolding serialize_run_identity identity_payload dump
identity_written = rw (noon_stamp, eq_self (identity_json identity noon_text))

deserialize_run_identity-serialize_run_identity_example :
    deserialize_run_identity ⦃json = text_of (identity_json identity noon_text)⦄ (1 ∷ [])
    ≡ ok identity
deserialize_run_identity-serialize_run_identity_example =
    deserialize_run_identity-serialize_run_identity
      ⦃json = text_of (identity_json identity noon_text)⦄ identity (1 ∷ []) identity-IsIdentity
      identity_written

abbrev second_json : Json
second_json = checkpoint_json second_checkpoint (identity_json identity noon_text) later_text

later_stamp : timestamp later ≡ ok later_text
unfolding timestamp format pair
later_stamp = refl

checkpoint_written :
    serialize_checkpoint ⦃json = text_of second_json⦄ second_checkpoint ≡ ok (1 ∷ [])
unfolding serialize_checkpoint checkpoint_payload identity_payload dump
checkpoint_written = rw (noon_stamp, later_stamp, eq_self second_json)

deserialize_checkpoint-serialize_checkpoint_example :
    deserialize_checkpoint ⦃json = text_of second_json⦄ (1 ∷ []) ≡ ok second_checkpoint
deserialize_checkpoint-serialize_checkpoint_example =
    deserialize_checkpoint-serialize_checkpoint ⦃json = text_of second_json⦄ second_checkpoint
      (1 ∷ []) second-IsState checkpoint_written

abbrev event_json : Json
event_json = transition_json prepared_event later_text

transition_written : serialize_transition ⦃json = text_of event_json⦄ prepared_event ≡ ok (1 ∷ [])
unfolding serialize_transition transition_payload dump
transition_written = rw (later_stamp, eq_self event_json)

deserialize_transition-serialize_transition_example :
    deserialize_transition ⦃json = text_of event_json⦄ (1 ∷ []) ≡ ok prepared_event
deserialize_transition-serialize_transition_example =
    deserialize_transition-serialize_transition ⦃json = text_of event_json⦄ prepared_event (1 ∷ [])
      prepared-IsEvent transition_written
