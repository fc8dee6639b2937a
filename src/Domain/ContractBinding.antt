-- ===== src/Domain/ContractBinding.antt =====
-- src/alicerce/domain/contract_binding.py: the binding of exact source bytes to a contract.
-- The class `Contract` of `loop_schemas` with its equality, `validate` and `Contract.from_dict`, the
-- decoder of UTF-8, the decoder of JSON before its hooks, and SHA-256 are parameters; a step that
-- raises one of the exceptions its `except` names gives `none`.
use mathlib.Core.Path.{subst}
use alicerce.Prelude.{
  Bool, not, ◌||◌, ◌≡◌, sym, ap, ◌∙◌, arith, ==_iff, true, false, Option, List, [], ◌∷◌, elem, Eq,
  ◌==◌, Text, Bytes, nat_eq, list_eq,
}
use alicerce.Errors.{
  Result, ok, ◌>>=◌, ◌>>◌, raise_if, or_raise, reraise, err, bind_ok, raise_if_ok,
  contract_binding_error, value_error, ContractBindingCause,
}
use alicerce.Json.{
  Json, constant, array, object, Items, no_items, item, Members, no_members, member,
}
use alicerce.Domain.Patterns.{sha256_pattern}
use alicerce.Domain.RunIdentity.{
  ContractHash, contract_hash_eq, new_contract_hash, require_pattern, require_text,
}

pub record ContractTools : Type 1 where
  -- the class Contract, with its `__eq__` and the two fields that the program reads
  pub Contract : Type 0
  pub contract_eq : Eq Contract
  pub id : Contract → Text
  pub version : Contract → Text
  -- `source_bytes.decode("utf-8")`
  pub decode : Bytes → Option Text
  -- `json.loads` before the hooks
  pub loads : Text → Option Json
  -- the errors that `validate` lists
  pub validate : Json → Option (List Text)
  pub from_dict : Json → Option Contract
  -- `hashlib.sha256(b).hexdigest()`
  pub sha256 : Bytes → Text

-- `_object_without_duplicates`, of pairs whose keys before them are `seen`
unfoldable pub object_without_duplicates : List Text → Members → Result Members
object_without_duplicates seen no_members = ok no_members
object_without_duplicates seen (member key value rest) = do
  raise_if (elem key seen) value_error
  others ← object_without_duplicates (key ∷ seen) rest
  ok (member key value others)

-- `_reject_nonfinite_number`
unfoldable reject_nonfinite_number : Text → Result Json
reject_nonfinite_number value = err value_error

-- The hooks at every object and constant, the inner ones first.
unfoldable mutual
  unfolding object_without_duplicates reject_nonfinite_number

  pub decode_value : Json → Result Json
  decode_value (constant value) = reject_nonfinite_number value
  decode_value (array items) = do decoded ← decode_items items; ok (array decoded)
  decode_value (object members) = do
    decoded ← decode_members members
    result ← object_without_duplicates [] decoded
    ok (object result)
  decode_value value = ok value

  decode_items : Items → Result Items
  decode_items no_items = ok no_items
  decode_items (item value rest) = do
    decoded ← decode_value value
    others ← decode_items rest
    ok (item decoded others)

  pub decode_members : Members → Result Members
  decode_members no_members = ok no_members
  decode_members (member key value rest) = do
    decoded ← decode_value value
    others ← decode_members rest
    ok (member key decoded others)

-- `isinstance(decoded, dict)`
abbrev is_object : Json → Bool
is_object (object _) = true
is_object _ = false

module _ ⦃tools : ContractTools⦄ where
  instance abbrev contract_eq : Eq tools.Contract
  contract_eq = tools.contract_eq

  pub record BoundContract : Type 0 where
    pub contract : tools.Contract
    pub contract_hash : ContractHash
    pub source_bytes : Bytes

  unfoldable pub parse_contract : Bytes → Result tools.Contract
  unfolding decode_value decode_items decode_members
  parse_contract source_bytes = do
    decoded_text ←
        or_raise (tools.decode source_bytes)
          (contract_binding_error ContractBindingCause.invalid_utf8)
    document ←
        reraise (λ _. contract_binding_error ContractBindingCause.invalid_json)
          (do decoded ← or_raise (tools.loads decoded_text) value_error; decode_value decoded)
    raise_if (not (is_object document))
        (contract_binding_error ContractBindingCause.invalid_document)
    errors ←
        or_raise (tools.validate document)
          (contract_binding_error ContractBindingCause.invalid_contract)
    raise_if (not (errors == [])) (contract_binding_error ContractBindingCause.invalid_contract)
    or_raise (tools.from_dict document)
        (contract_binding_error ContractBindingCause.invalid_contract)

  unfoldable pub hash_contract : Bytes → Result ContractHash
  hash_contract source_bytes = new_contract_hash (tools.sha256 source_bytes)

  -- `BoundContract.__post_init__`
  unfoldable pub new_bound_contract : tools.Contract → ContractHash → Bytes → Result BoundContract
  new_bound_contract contract contract_hash source_bytes = do
    parsed ← parse_contract source_bytes
    expected_hash ← hash_contract source_bytes
    raise_if (not (parsed == contract) || not (expected_hash == contract_hash))
        (contract_binding_error ContractBindingCause.binding_mismatch)
    ok (record { contract = contract; contract_hash = contract_hash; source_bytes = source_bytes })

  -- `BoundContract.from_json_bytes`
  unfoldable pub from_json_bytes : Bytes → Result BoundContract
  from_json_bytes source_bytes = do
    contract ← parse_contract source_bytes
    contract_hash ← hash_contract source_bytes
    new_bound_contract contract contract_hash source_bytes

  hash_facts :
      (b : Bytes) (hash : ContractHash)
      → hash_contract b ≡ ok hash
      → (hash.value ≡ tools.sha256 b) × (sha256_pattern hash.value ≡ true)
  unfolding hash_contract new_contract_hash require_pattern require_text
  hash_facts b hash h =
      let (value, p, same) = bind_ok (require_pattern sha256_pattern (tools.sha256 b)) _ h in
      let (trusted, q, r) = bind_ok (require_text (tools.sha256 b)) _ p in
      let (matches, r1) = raise_if_ok (not (sha256_pattern trusted)) _ _ r in
      let (stripped, q1) = raise_if_ok _ value_error (ok (tools.sha256 b)) q in
      (ground arith, ground arith)

  bound_sound :
      (contract : tools.Contract) (hash : ContractHash) (b : Bytes) {x : BoundContract}
      → new_bound_contract contract hash b ≡ ok x
      → (parse_contract b ≡ ok contract)
        × (hash_contract b ≡ ok hash)
        × (x ≡ record { contract = contract; contract_hash = hash; source_bytes = b })
  unfolding new_bound_contract
  bound_sound contract hash b h =
      let (parsed, p, h1) = bind_ok (parse_contract b) _ h in
      let (expected, q, h2) = bind_ok (hash_contract b) _ h1 in
      let (same, h3) = raise_if_ok (not (parsed == contract) || not (expected == hash)) _ _ h2 in
      (ground (arith, ==_iff parsed contract), ground (arith, ==_iff expected hash), ground arith)

  -- Every bound contract, also one that is constructed directly, is what its source bytes parse to,
  -- with their SHA-256 in lowercase hexadecimal, and is the one that `from_json_bytes` makes of them.
  pub bound_contract_corresponds :
      (contract : tools.Contract) (hash : ContractHash) (b : Bytes) (x : BoundContract)
      → new_bound_contract contract hash b ≡ ok x
      → (parse_contract x.source_bytes ≡ ok x.contract)
        × (x.contract_hash.value ≡ tools.sha256 x.source_bytes)
        × (sha256_pattern x.contract_hash.value ≡ true)
        × (from_json_bytes x.source_bytes ≡ ok x)
  bound_contract_corresponds contract hash b x h =
      let (p, q, same) = bound_sound contract hash b h in
      let (value, hex) = hash_facts b hash q in
      subst
        (λ (y : BoundContract).
          (parse_contract y.source_bytes ≡ ok y.contract)
          × (y.contract_hash.value ≡ tools.sha256 y.source_bytes)
          × (sha256_pattern y.contract_hash.value ≡ true)
          × (from_json_bytes y.source_bytes ≡ ok y))
        (sym same) (p, value, hex, unfold from_json_bytes in (rw (p, q) (h ∙ ap ok same)))
