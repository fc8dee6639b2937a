-- ===== src/Domain/RunIdentity.antt =====
-- src/alicerce/domain/run_identity.py: the identifiers of a run and the identity that binds them.

use alicerce.Prelude.{Bool, not, ◌||◌, [], ℕ_discrete, Eq, ◌==◌, Text, nat_eq, list_eq}
use alicerce.Errors.{Result, ok, ◌>>=◌, ◌>>◌, raise_if, value_error}
use alicerce.DateTime.{DateTime, is_utc}
use alicerce.Domain.Patterns.{strip, run_id_pattern, sha256_pattern, object_sha_pattern}

-- `not value or value != value.strip()`
unfoldable pub require_text : Text → Result Text
require_text value = do raise_if (value == [] || not (value == strip value)) value_error; ok value

unfoldable pub require_pattern : (Text → Bool) → Text → Result Text
unfolding require_text
require_pattern pattern value = do
  trusted ← require_text value
  raise_if (not (pattern trusted)) value_error
  ok trusted

pub record RunId : Type 0 where
  pub value : Text

pub record ContractId : Type 0 where
  pub value : Text

pub record ContractVersion : Type 0 where
  pub value : Text

pub record ContractHash : Type 0 where
  pub value : Text

pub record BaselineSha : Type 0 where
  pub value : Text

pub record PolicyHash : Type 0 where
  pub value : Text

unfoldable pub new_run_id : Text → Result RunId
new_run_id t = do value ← require_pattern run_id_pattern t; ok (record { value = value })

unfoldable pub new_contract_id : Text → Result ContractId
new_contract_id t = do value ← require_text t; ok (record { value = value })

unfoldable pub new_contract_version : Text → Result ContractVersion
new_contract_version t = do value ← require_text t; ok (record { value = value })

unfoldable pub new_contract_hash : Text → Result ContractHash
new_contract_hash t = do value ← require_pattern sha256_pattern t; ok (record { value = value })

unfoldable pub new_baseline_sha : Text → Result BaselineSha
new_baseline_sha t = do value ← require_pattern object_sha_pattern t; ok (record { value = value })

unfoldable pub new_policy_hash : Text → Result PolicyHash
new_policy_hash t = do value ← require_pattern sha256_pattern t; ok (record { value = value })

pub record RunIdentity : Type 0 where
  pub run_id : RunId
  pub contract_id : ContractId
  pub contract_version : ContractVersion
  pub contract_hash : ContractHash
  pub baseline_sha : BaselineSha
  pub policy_hash : PolicyHash
  pub created_at : DateTime

-- `RunIdentity.__post_init__`; the classes of the parts are their types here
unfoldable pub new_run_identity :
    RunId
    → ContractId
    → ContractVersion
    → ContractHash
    → BaselineSha
    → PolicyHash
    → DateTime
    → Result RunIdentity
new_run_identity run contract version hash baseline policy created_at = do
  raise_if (not (is_utc created_at)) value_error
  ok (record {
    run_id = run;
    contract_id = contract;
    contract_version = version;
    contract_hash = hash;
    baseline_sha = baseline;
    policy_hash = policy;
    created_at = created_at;
  })

unfoldable pub RunId-discrete : Discrete RunId
unfolding ℕ_discrete
RunId-discrete = hlevel ℕ_discrete

instance abbrev pub run_id_eq : Eq RunId
run_id_eq = record { dec = RunId-discrete }

unfoldable pub ContractId-discrete : Discrete ContractId
unfolding ℕ_discrete
ContractId-discrete = hlevel ℕ_discrete

instance abbrev pub contract_id_eq : Eq ContractId
contract_id_eq = record { dec = ContractId-discrete }

unfoldable pub ContractVersion-discrete : Discrete ContractVersion
unfolding ℕ_discrete
ContractVersion-discrete = hlevel ℕ_discrete

instance abbrev pub contract_version_eq : Eq ContractVersion
contract_version_eq = record { dec = ContractVersion-discrete }

unfoldable pub ContractHash-discrete : Discrete ContractHash
unfolding ℕ_discrete
ContractHash-discrete = hlevel ℕ_discrete

instance abbrev pub contract_hash_eq : Eq ContractHash
contract_hash_eq = record { dec = ContractHash-discrete }

unfoldable pub BaselineSha-discrete : Discrete BaselineSha
unfolding ℕ_discrete
BaselineSha-discrete = hlevel ℕ_discrete

instance abbrev pub baseline_sha_eq : Eq BaselineSha
baseline_sha_eq = record { dec = BaselineSha-discrete }

unfoldable pub PolicyHash-discrete : Discrete PolicyHash
unfolding ℕ_discrete
PolicyHash-discrete = hlevel ℕ_discrete

instance abbrev pub policy_hash_eq : Eq PolicyHash
policy_hash_eq = record { dec = PolicyHash-discrete }

unfoldable pub RunIdentity-discrete : Discrete RunIdentity
unfolding ℕ_discrete
RunIdentity-discrete = hlevel ℕ_discrete

instance abbrev pub run_identity_eq : Eq RunIdentity
run_identity_eq = record { dec = RunIdentity-discrete }
