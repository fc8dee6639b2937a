-- ===== src/Application/Resume/Exact.antt =====
-- When a persisted run may continue, and why it may not.
use mathlib.Core.Path.{subst}
use alicerce.Prelude.{
  ◌≡◌, ◌↔◌, refl, sym, ap, ◌∙◌, true, false, not, Option, some, if◌then◌else◌, ◌==◌, ==_iff,
  eq→path, eq_self, nat_eq, list_eq, arith,
}
use alicerce.Errors.{Result, ok, bind_ok, raise_if_ok, resume_error, ResumeErrorCause, or_raise}
use alicerce.Domain.RunIdentity.{
  RunId, ContractId, RunIdentity, BaselineSha, PolicyHash, new_contract_id, new_contract_version,
  run_id_eq, contract_id_eq, contract_version_eq, contract_hash_eq, baseline_sha_eq, policy_hash_eq,
}
use alicerce.Domain.ContractBinding.{ContractTools, BoundContract}
use alicerce.Domain.Lifecycle.{is_completed}
use alicerce.Domain.State.{RunCheckpoint}
use alicerce.Application.Resume.{version_differs, contract_differs, load_run_for_resume}

-- The identity names the contract, its version and its bytes.
pub record BindsContract ⦃tools : ContractTools⦄ (identity : RunIdentity) (bound : BoundContract)
    : Type 0 where
  pub named : new_contract_id (tools.id bound.contract) ≡ ok identity.contract_id
  pub versioned : new_contract_version (tools.version bound.contract) ≡ ok identity.contract_version
  pub hashed : identity.contract_hash ≡ bound.contract_hash

-- The checkpoint is of the requested run, under the same contract, baseline and policy, and not
-- complete.
pub record Resumable ⦃tools : ContractTools⦄ (run : RunId) (bound : BoundContract)
    (baseline : BaselineSha) (policy : PolicyHash) (c : RunCheckpoint) : Type 0 where
  pub same_run : c.identity.run_id ≡ run
  pub contract : BindsContract c.identity bound
  pub same_baseline : c.identity.baseline_sha ≡ baseline
  pub same_policy : c.identity.policy_hash ≡ policy
  pub running : is_completed c.lifecycle.state ≡ false

module _ ⦃tools : ContractTools⦄ (identity : RunIdentity) (bound : BoundContract) where
  version_sound :
      version_differs identity bound ≡ ok false
      → (new_contract_version (tools.version bound.contract) ≡ ok identity.contract_version)
        × (identity.contract_hash ≡ bound.contract_hash)
  unfolding version_differs
  version_sound h =
      let (version, p, h1) = bind_ok (new_contract_version (tools.version bound.contract)) _ h in
      (
        ground (arith, ==_iff identity.contract_version version),
        ground (arith, ==_iff identity.contract_hash bound.contract_hash),
      )

  named_sound :
      (id : ContractId)
      → (if identity.contract_id == id then version_differs identity bound else ok true) ≡ ok false
      → (identity.contract_id ≡ id) × (version_differs identity bound ≡ ok false)
  named_sound id h = (ground (arith, ==_iff identity.contract_id id), ground arith)

  differs_sound : contract_differs identity bound ≡ ok false → BindsContract identity bound
  unfolding contract_differs
  differs_sound h =
      let (id, p, h1) = bind_ok (new_contract_id (tools.id bound.contract)) _ h in
      let (same, h2) = named_sound id h1 in
      let (versioned, hashed) = version_sound h2 in
      record { named = p ∙ ap ok (sym same); versioned = versioned; hashed = hashed }

  pub differs_complete : BindsContract identity bound → contract_differs identity bound ≡ ok false
  unfolding contract_differs version_differs
  differs_complete h =
      rw
        (
          h.named,
          h.versioned,
          (==_iff _ _).1 h.hashed,
          eq_self identity.contract_id,
          eq_self identity.contract_version,
        )
        refl

module _ ⦃tools : ContractTools⦄ (run : RunId) (bound : BoundContract) (baseline : BaselineSha)
    (policy : PolicyHash) (load : RunId → Result (Option RunCheckpoint)) where
  resume_sound :
      (c : RunCheckpoint)
      → load_run_for_resume run bound baseline policy load ≡ ok c
      → (load run ≡ ok (some c)) × Resumable run bound baseline policy c
  unfolding load_run_for_resume
  resume_sound c h =
      let (loaded, p, h1) = bind_ok (load run) _ h in
      let (found, q, h2) =
        bind_ok (or_raise loaded (resume_error ResumeErrorCause.not_found)) _ h1 in
      let (same_run, h3) = raise_if_ok (not (found.identity.run_id == run)) _ _ h2 in
      let (differs, r, h4) = bind_ok (contract_differs found.identity bound) _ h3 in
      let (same, h5) = raise_if_ok differs _ _ h4 in
      let (same_baseline, h6) =
        raise_if_ok (not (found.identity.baseline_sha == baseline)) _ _ h5 in
      let (same_policy, h7) = raise_if_ok (not (found.identity.policy_hash == policy)) _ _ h6 in
      let (running, h8) = raise_if_ok (is_completed found.lifecycle.state) _ _ h7 in
      let here : found ≡ c = ground arith in
      subst
        (λ (x : RunCheckpoint). (load run ≡ ok (some x)) × Resumable run bound baseline policy x)
        here
        (
          p ∙ ap ok (ground arith),
          record {
            same_run = eq→path _ _ (ground arith);
            contract = differs_sound found.identity bound (r ∙ ap ok same);
            same_baseline = eq→path _ _ (ground arith);
            same_policy = eq→path _ _ (ground arith);
            running = running;
          },
        )

  resume_complete :
      (c : RunCheckpoint)
      → load run ≡ ok (some c)
      → Resumable run bound baseline policy c
      → load_run_for_resume run bound baseline policy load ≡ ok c
  unfolding load_run_for_resume
  resume_complete c loaded h = rw (
    loaded,
    (==_iff _ _).1 h.same_run,
    differs_complete c.identity bound h.contract,
    (==_iff _ _).1 h.same_baseline,
    (==_iff _ _).1 h.same_policy,
    h.running,
  )

  -- A run resumes exactly if the store has a checkpoint of the requested run whose identity binds the
  -- contract's id, version and hash, the baseline and the policy, and that is not complete; the
  -- result is that checkpoint.
  pub resume_exact :
      (c : RunCheckpoint)
      → (load_run_for_resume run bound baseline policy load ≡ ok c)
        ↔ ((load run ≡ ok (some c)) × Resumable run bound baseline policy c)
  resume_exact c = (resume_sound c, λ (loaded, h). resume_complete c loaded h)
