-- ===== src/Application/RunIdentity/Created.antt =====
-- The identity of a new run, its first checkpoint, and a store that keeps it, up to the resumption.
use mathlib.Core.Path.{subst}
use alicerce.Prelude.{◌≡◌, refl, sym, ap, ◌∙◌, not, true, false, Option, some, arith}
use alicerce.Errors.{Result, ok, bind_ok, raise_if_ok, value_error}
use alicerce.DateTime.{DateTime, is_utc}
use alicerce.Domain.RunIdentity.{
  RunId, RunIdentity, BaselineSha, PolicyHash, new_contract_id, new_contract_version,
  new_run_identity,
}
use alicerce.Domain.ContractBinding.{ContractTools, BoundContract}
use alicerce.Domain.Lifecycle.{is_completed}
use alicerce.Domain.State.{RunCheckpoint}
use alicerce.Application.Resume.{load_run_for_resume}
use alicerce.Application.Resume.Exact.{BindsContract, resume_exact}
use alicerce.Application.RunIdentity.{create_run_identity}

module _ ⦃tools : ContractTools⦄ (bound : BoundContract) (baseline : BaselineSha)
    (policy : PolicyHash) (clock : Result DateTime) (id_generator : Result RunId) where
  pub created_sound :
      (identity : RunIdentity)
      → create_run_identity bound baseline policy clock id_generator ≡ ok identity
      → (id_generator ≡ ok identity.run_id)
        × (clock ≡ ok identity.created_at)
        × (is_utc identity.created_at ≡ true)
        × BindsContract identity bound
        × (identity.baseline_sha ≡ baseline)
        × (identity.policy_hash ≡ policy)
  unfolding create_run_identity new_run_identity
  created_sound identity h =
      let (run, p, h1) = bind_ok id_generator _ h in
      let (id, q, h2) = bind_ok (new_contract_id (tools.id bound.contract)) _ h1 in
      let (version, r, h3) = bind_ok (new_contract_version (tools.version bound.contract)) _ h2 in
      let (at, s, h4) = bind_ok clock _ h3 in
      let (utc, h5) = raise_if_ok (not (is_utc at)) value_error _ h4 in
      let same : record {
        run_id = run;
        contract_id = id;
        contract_version = version;
        contract_hash = bound.contract_hash;
        baseline_sha = baseline;
        policy_hash = policy;
        created_at = at;
      }
          ≡ identity =
        ground arith in
      subst
        (λ (x : RunIdentity).
          (id_generator ≡ ok x.run_id)
          × (clock ≡ ok x.created_at)
          × (is_utc x.created_at ≡ true)
          × BindsContract x bound
          × (x.baseline_sha ≡ baseline)
          × (x.policy_hash ≡ policy))
        same (p, s, ground arith, record { named = q; versioned = r; hashed = refl }, refl, refl)

  -- A run that was created under a contract, a baseline and a policy resumes under the same three,
  -- at every stored checkpoint of its identity that is not complete, if the store returns it.
  pub created_resumes :
      (identity : RunIdentity) (c : RunCheckpoint) (load : RunId → Result (Option RunCheckpoint))
      → create_run_identity bound baseline policy clock id_generator ≡ ok identity
      → c.identity ≡ identity
      → is_completed c.lifecycle.state ≡ false
      → load identity.run_id ≡ ok (some c)
      → load_run_for_resume identity.run_id bound baseline policy load ≡ ok c
  created_resumes identity c load created same running loaded =
      let (_, _, _, contract, same_baseline, same_policy) = created_sound identity created in
      (resume_exact identity.run_id bound baseline policy load c).1 (
        loaded,
        record {
          same_run = ap (λ (x : RunIdentity). x.run_id) same;
          contract = subst (λ x. BindsContract x bound) (sym same) contract;
          same_baseline = ap (λ (x : RunIdentity). x.baseline_sha) same ∙ same_baseline;
          same_policy = ap (λ (x : RunIdentity). x.policy_hash) same ∙ same_policy;
          running = running;
        },
      )
