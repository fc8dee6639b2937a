-- ===== src/Tests/Contracts.antt =====
-- The contract of the samples, the identity of a run under it, and its resumption.
use alicerce.Prelude.{
  ◌≡◌, ◌↔◌, ◌⊎◌, refl, true, Option, none, some, text, ◌==◌, list-discrete, ℕ_discrete, list_eq,
  nat_eq,
}
use alicerce.Errors.{Result, ok, err, resume_error, ResumeErrorCause}
use alicerce.Domain.Patterns.{sha256_pattern, strip}
use alicerce.Domain.RunIdentity.{
  RunId, new_contract_id, new_contract_version, require_text, require_pattern, new_contract_hash,
  ContractHash-discrete, new_run_identity,
}
use alicerce.Domain.ContractBinding.{
  decode_value, object_without_duplicates, decode_members, parse_contract, hash_contract,
  new_bound_contract, from_json_bytes, bound_contract_corresponds,
}
use alicerce.Domain.Lifecycle.{is_completed}
use alicerce.Domain.State.{RunCheckpoint}
use alicerce.Application.Resume.{load_run_for_resume}
use alicerce.Application.Resume.Exact.{Resumable, resume_exact}
use alicerce.Application.Resume.Refusal.{Flaw, resume_refuses}
use alicerce.Application.RunIdentity.{create_run_identity}
use alicerce.Application.RunIdentity.Created.{created_resumes}
use alicerce.Tests.Samples.{
  identity, noon, first_checkpoint, bound, contract, hash, sample_tools, sample_contract-discrete,
}

binds : new_bound_contract contract identity.contract_hash (text "{}") ≡ ok bound
unfolding new_bound_contract parse_contract decode_value object_without_duplicates decode_members
    hash_contract new_contract_hash require_pattern require_text sha256_pattern strip ◌==◌
    list-discrete sample_contract-discrete ContractHash-discrete
binds = refl

bound_contract_corresponds_example :
    (parse_contract (text "{}") ≡ ok contract)
    × (hash ≡ sample_tools.sha256 (text "{}"))
    × (sha256_pattern hash ≡ true)
    × (from_json_bytes (text "{}") ≡ ok bound)
bound_contract_corresponds_example =
    bound_contract_corresponds contract identity.contract_hash (text "{}") bound binds

abbrev stored : RunId → Result (Option RunCheckpoint)
stored _ = ok (some first_checkpoint)

abbrev missing : RunId → Result (Option RunCheckpoint)
missing _ = ok none

makes :
    create_run_identity bound identity.baseline_sha identity.policy_hash
      (ok noon)
      (ok identity.run_id)
    ≡ ok identity
unfolding create_run_identity new_run_identity new_contract_id new_contract_version require_text
    strip ◌==◌ list-discrete ℕ_discrete
makes = refl

created_resumes_example :
    load_run_for_resume identity.run_id bound identity.baseline_sha identity.policy_hash stored
    ≡ ok first_checkpoint
created_resumes_example =
    created_resumes bound identity.baseline_sha identity.policy_hash (ok noon) (ok identity.run_id)
      identity first_checkpoint stored makes refl (unfold is_completed in refl) refl

resume_exact_example :
    (load_run_for_resume identity.run_id bound identity.baseline_sha identity.policy_hash stored
      ≡ ok first_checkpoint)
    ↔ ((stored identity.run_id ≡ ok (some first_checkpoint))
        × Resumable identity.run_id bound identity.baseline_sha identity.policy_hash
            first_checkpoint)
resume_exact_example =
    resume_exact identity.run_id bound identity.baseline_sha identity.policy_hash stored
      first_checkpoint

not_there :
    load_run_for_resume identity.run_id bound identity.baseline_sha identity.policy_hash missing
    ≡ err (resume_error ResumeErrorCause.not_found)
unfolding load_run_for_resume
not_there = refl

resume_refuses_example :
    (missing identity.run_id ≡ err (resume_error ResumeErrorCause.not_found))
    ⊎ ((missing identity.run_id ≡ ok none)
        × (resume_error ResumeErrorCause.not_found ≡ resume_error ResumeErrorCause.not_found))
    ⊎ ((c : RunCheckpoint) × (missing identity.run_id ≡ ok (some c))
        × Flaw identity.run_id bound identity.baseline_sha identity.policy_hash c
            (resume_error ResumeErrorCause.not_found))
resume_refuses_example =
    resume_refuses identity.run_id bound identity.baseline_sha identity.policy_hash missing
      (resume_error ResumeErrorCause.not_found) not_there
