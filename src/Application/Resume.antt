-- ===== src/Application/Resume.antt =====
-- src/alicerce/application/resume.py: the checks before a persisted run continues. The store's
-- `load` is a parameter; the `isinstance` checks are the types here.
pub mod Exact
pub mod Refusal
use alicerce.Prelude.{Bool, true, not, ◌||◌, Option, ◌==◌, nat_eq, list_eq, if◌then◌else◌}
use alicerce.Errors.{Result, ok, ◌>>=◌, ◌>>◌, raise_if, or_raise, resume_error, ResumeErrorCause}
use alicerce.Domain.RunIdentity.{
  RunId, RunIdentity, BaselineSha, PolicyHash, new_contract_id, new_contract_version, run_id_eq,
  contract_id_eq, contract_version_eq, contract_hash_eq, baseline_sha_eq, policy_hash_eq,
}
use alicerce.Domain.ContractBinding.{ContractTools, BoundContract}
use alicerce.Domain.Lifecycle.{is_completed}
use alicerce.Domain.State.{RunCheckpoint}

module _ ⦃tools : ContractTools⦄ where
  unfoldable pub version_differs : RunIdentity → BoundContract → Result Bool
  version_differs identity bound = do
    contract_version ← new_contract_version (tools.version bound.contract)
    ok (
        not (identity.contract_version == contract_version)
        || not (identity.contract_hash == bound.contract_hash))

  -- The `or` of three tests: a later one is evaluated only if those before it are false, and the
  -- constructors of the identifiers may raise.
  unfoldable pub contract_differs : RunIdentity → BoundContract → Result Bool
  unfolding version_differs
  contract_differs identity bound = do
    contract_id ← new_contract_id (tools.id bound.contract)
    if identity.contract_id == contract_id then version_differs identity bound else ok true

  unfoldable pub load_run_for_resume :
      RunId
      → BoundContract
      → BaselineSha
      → PolicyHash
      → (RunId → Result (Option RunCheckpoint))
      → Result RunCheckpoint
  unfolding contract_differs
  load_run_for_resume run_id bound baseline_sha policy_hash load = do
    loaded ← load run_id
    checkpoint ← or_raise loaded (resume_error ResumeErrorCause.not_found)
    let identity = checkpoint.identity
    raise_if (not (identity.run_id == run_id)) (resume_error ResumeErrorCause.run_mismatch)
    differs ← contract_differs identity bound
    raise_if differs (resume_error ResumeErrorCause.contract_mismatch)
    raise_if (not (identity.baseline_sha == baseline_sha))
        (resume_error ResumeErrorCause.baseline_mismatch)
    raise_if (not (identity.policy_hash == policy_hash))
        (resume_error ResumeErrorCause.policy_mismatch)
    raise_if (is_completed checkpoint.lifecycle.state) (resume_error ResumeErrorCause.terminal_run)
    ok checkpoint
