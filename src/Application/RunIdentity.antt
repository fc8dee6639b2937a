-- ===== src/Application/RunIdentity.antt =====
-- src/alicerce/application/run_identity.py: the identity of a new run. What the clock and the
-- generator of identifiers answer are parameters.
pub mod Created
use alicerce.Errors.{Result, ◌>>=◌}
use alicerce.DateTime.{DateTime}
use alicerce.Domain.RunIdentity.{
  RunId, RunIdentity, BaselineSha, PolicyHash, new_contract_id, new_contract_version,
  new_run_identity,
}
use alicerce.Domain.ContractBinding.{ContractTools, BoundContract}

unfoldable pub create_run_identity :
    ⦃tools : ContractTools⦄
    → BoundContract
    → BaselineSha
    → PolicyHash
    → Result DateTime
    → Result RunId
    → Result RunIdentity
create_run_identity ⦃tools⦄ bound baseline_sha policy_hash clock id_generator = do
  run_id ← id_generator
  contract_id ← new_contract_id (tools.id bound.contract)
  contract_version ← new_contract_version (tools.version bound.contract)
  created_at ← clock
  new_run_identity run_id contract_id contract_version bound.contract_hash baseline_sha policy_hash
      created_at
