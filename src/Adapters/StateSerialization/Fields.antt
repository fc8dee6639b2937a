-- ===== src/Adapters/StateSerialization/Fields.antt =====
-- state_serialization.py: the formats, the hooks of `json.loads`, and the readers of one value or one
-- field of an object.
use alicerce.Prelude.{
  not, Option, none, some, List, [], ◌∷◌, ℤ, pos, int_eq, ◌==◌, elem, Text, text, nat_eq, list_eq,
  if◌then◌else◌,
}
use alicerce.Errors.{
  Exn, Result, ok, err, ◌>>=◌, ◌>>◌, raise_if, value_error, decode_error, state_serialization_error,
  is_type_or_value_error,
}
use alicerce.DateTime.{DateTime}
use alicerce.Domain.Lifecycle.{
  LifecycleState, contract_bound, workspace_prepared, building, verifying, deciding, review_pending,
  completed,
}
use alicerce.Json.{
  Json, null_value, integer, constant, string, array, object, Items, no_items, item, Members,
  no_members, member, json_eq, keys, get, has_keys,
}
use alicerce.Adapters.StateSerialization.Timestamp.{parse_timestamp}

abbrev pub state_format_version : ℤ
state_format_version = pos 1

abbrev pub identity_format : Text
identity_format = text "alicerce.run_identity"

abbrev pub checkpoint_format : Text
checkpoint_format = text "alicerce.run_checkpoint"

abbrev pub transition_format : Text
transition_format = text "alicerce.lifecycle_transition"

-- `_duplicate_rejecting_object` and `_reject_json_constant`, at every object and constant.
unfoldable mutual
  pub apply_hooks : Json → Result Json
  apply_hooks (constant _) = err state_serialization_error
  apply_hooks (array items) = do checked ← hook_items items; ok (array checked)
  apply_hooks (object members) = do checked ← hook_members members; ok (object checked)
  apply_hooks value = ok value

  pub hook_items : Items → Result Items
  hook_items no_items = ok no_items
  hook_items (item value rest) = do
    checked ← apply_hooks value
    others ← hook_items rest
    ok (item checked others)

  pub hook_members : Members → Result Members
  hook_members no_members = ok no_members
  hook_members (member key value rest) = do
    raise_if (elem key (keys rest)) state_serialization_error
    checked ← apply_hooks value
    others ← hook_members rest
    ok (member key checked others)

-- `except (UnicodeDecodeError, json.JSONDecodeError)`
unfoldable pub undecodable : Exn → Exn
undecodable decode_error = state_serialization_error
undecodable e = e

-- `except (TypeError, ValueError)`
unfoldable pub invalid_values : Exn → Exn
unfolding is_type_or_value_error
invalid_values e = if is_type_or_value_error e then state_serialization_error else e

-- The part of `_object` that tests for a dict.
unfoldable pub require_object : Json → Result Members
require_object (object members) = ok members
require_object _ = err state_serialization_error

-- `_object`
unfoldable pub object_with : List Text → Json → Result Members
unfolding require_object has_keys
object_with names value = do
  members ← require_object value
  raise_if (not (has_keys names members)) state_serialization_error
  ok members

-- `_text`
unfoldable pub require_string : Json → Result Text
require_string (string value) = ok value
require_string _ = err state_serialization_error

-- `_optional_text`
unfoldable pub optional_string : Json → Result (Option Text)
unfolding require_string
optional_string null_value = ok none
optional_string value = do found ← require_string value; ok (some found)

-- `_integer`
unfoldable pub require_integer : Json → Result ℤ
require_integer (integer value) = ok value
require_integer _ = err state_serialization_error

-- `_header`
unfoldable pub require_header : Text → Members → Result (Unit {0})
unfolding require_integer
require_header expected_format value = do
  format ← get (text "format") value
  raise_if (not (format == string expected_format)) state_serialization_error
  found ← get (text "version") value
  version ← require_integer found
  raise_if (not (version == state_format_version)) state_serialization_error

-- `LifecycleState.value`
unfoldable pub state_value : LifecycleState → Text
state_value contract_bound = text "contract_bound"
state_value workspace_prepared = text "workspace_prepared"
state_value building = text "building"
state_value verifying = text "verifying"
state_value deciding = text "deciding"
state_value review_pending = text "review_pending"
state_value completed = text "completed"

unfoldable pub find_state : Text → List LifecycleState → Result LifecycleState
unfolding state_value
find_state value [] = err value_error
find_state value (state ∷ states) =
    let rest = find_state value states in if state_value state == value then ok state else rest

-- `LifecycleState(value)`
unfoldable pub state_of : Text → Result LifecycleState
unfolding find_state
state_of value = find_state value (
    contract_bound ∷ workspace_prepared ∷ building ∷ verifying ∷ deciding ∷ review_pending
    ∷ completed ∷ [])

-- `None` or a string
abbrev pub optional_json : Option Text → Json
optional_json none = null_value
optional_json (some value) = string value

abbrev pub text_field : Text → Text → Members → Members
text_field key value rest = member key (string value) rest

-- `_text(payload[key])`
unfoldable pub get_text : Text → Members → Result Text
unfolding require_string
get_text key payload = do value ← get key payload; require_string value

-- `_integer(payload[key])`
unfoldable pub get_integer : Text → Members → Result ℤ
unfolding require_integer
get_integer key payload = do value ← get key payload; require_integer value

-- `_parse_timestamp(payload[key])`
unfoldable pub get_timestamp : Text → Members → Result DateTime
unfolding get_text
get_timestamp key payload = do value ← get_text key payload; parse_timestamp value

-- `_optional_text(payload[key])`
unfoldable pub get_optional : Text → Members → Result (Option Text)
unfolding optional_string
get_optional key payload = do value ← get key payload; optional_string value

-- `LifecycleState(_text(payload[key]))`
unfoldable pub get_state : Text → Members → Result LifecycleState
unfolding get_text state_of
get_state key payload = do value ← get_text key payload; state_of value
