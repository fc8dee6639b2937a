-- ===== src/Application/Resume/Refusal.antt =====
-- Why a persisted run does not continue.
use mathlib.Core.Path.{subst}
use alicerce.Prelude.{
  ◌≡◌, ◌≢◌, refl, sym, ◌∙◌, ap, ◌⊎◌, inl, inr, Bool, true, not, Option, none, some, ◌==◌, ==_iff,
  nat_eq, list_eq, Text, arith,
}
use alicerce.Errors.{
  Exn, Result, ok, err, ◌>>=◌, ◌>>◌, raise_if, raise_if-refuses, Result-cases, value_error,
  resume_error, ResumeErrorCause,
}
use alicerce.Domain.RunIdentity.{
  RunId, require_text, BaselineSha, PolicyHash, new_contract_id, new_contract_version, run_id_eq,
  baseline_sha_eq, policy_hash_eq,
}
use alicerce.Domain.ContractBinding.{ContractTools, BoundContract}
use alicerce.Domain.Lifecycle.{is_completed}
use alicerce.Domain.State.{RunCheckpoint}
use alicerce.Application.Resume.{version_differs, contract_differs, load_run_for_resume}
use alicerce.Application.Resume.Exact.{BindsContract, differs_complete}

module _ ⦃tools : ContractTools⦄ (run : RunId) (bound : BoundContract) (baseline : BaselineSha)
    (policy : PolicyHash) where
  id_raises : (t : Text) (e : Exn) → new_contract_id t ≡ err e → e ≡ value_error
  unfolding new_contract_id require_text
  id_raises t e h = ground arith

  version_raises : (t : Text) (e : Exn) → new_contract_version t ≡ err e → e ≡ value_error
  unfolding new_contract_version require_text
  version_raises t e h = ground arith

  -- What is wrong with a checkpoint that was found, by exception; ValueError comes from the
  -- constructors of the contract's identifiers.
  abbrev pub Flaw : RunCheckpoint → Exn → Type 0
  Flaw c (resume_error ResumeErrorCause.run_mismatch) = c.identity.run_id ≢ run
  Flaw c (resume_error ResumeErrorCause.contract_mismatch) = ¬ (BindsContract c.identity bound)
  Flaw c (resume_error ResumeErrorCause.baseline_mismatch) = c.identity.baseline_sha ≢ baseline
  Flaw c (resume_error ResumeErrorCause.policy_mismatch) = c.identity.policy_hash ≢ policy
  Flaw c (resume_error ResumeErrorCause.terminal_run) = is_completed c.lifecycle.state ≡ true
  Flaw c value_error =
      (new_contract_id (tools.id bound.contract) ≡ err value_error)
      ⊎ (new_contract_version (tools.version bound.contract) ≡ err value_error)
  Flaw _ _ = ⊥

  differs→¬Binds :
      (c : RunCheckpoint)
      → contract_differs c.identity bound ≡ ok true
      → ¬ (BindsContract c.identity bound)
  differs→¬Binds c h binds = ground (arith, differs_complete c.identity bound binds)

  differs_raises :
      (c : RunCheckpoint) (e : Exn) → contract_differs c.identity bound ≡ err e → Flaw c e
  unfolding contract_differs version_differs
  differs_raises c e h = elim (Result-cases (new_contract_id (tools.id bound.contract))) [
    | inr (x, p) ↦
        let here : x ≡ e = ground arith in
        let same = id_raises (tools.id bound.contract) x p in
        subst (Flaw c) (sym same ∙ here) (inl (p ∙ ap err same))
    | inl (id, p) ↦ elim (Result-cases (new_contract_version (tools.version bound.contract))) [
      | inl (version, q) ↦ absurd (ground arith)
      | inr (x, q) ↦
          let here : x ≡ e = ground arith in
          let same = version_raises (tools.version bound.contract) x q in
          subst (Flaw c) (sym same ∙ here) (inr (q ∙ ap err same))
    ]
  ]

  -- the checks after that of the contract
  abbrev later_checks : RunCheckpoint → Result RunCheckpoint
  later_checks c = do
    raise_if (not (c.identity.baseline_sha == baseline))
        (resume_error ResumeErrorCause.baseline_mismatch)
    raise_if (not (c.identity.policy_hash == policy))
        (resume_error ResumeErrorCause.policy_mismatch)
    raise_if (is_completed c.lifecycle.state) (resume_error ResumeErrorCause.terminal_run)
    ok c

  checks_refuse : (c : RunCheckpoint) (e : Exn) → later_checks c ≡ err e → Flaw c e
  checks_refuse c =
      raise_if-refuses (Flaw c) (not (c.identity.baseline_sha == baseline)) _ _
        (λ h. ground (arith, ==_iff c.identity.baseline_sha baseline))
        (raise_if-refuses (Flaw c) (not (c.identity.policy_hash == policy)) _ _
          (λ h. ground (arith, ==_iff c.identity.policy_hash policy))
          (raise_if-refuses (Flaw c) (is_completed c.lifecycle.state) _ _ (λ h. h)
            (λ x h. absurd (ground arith))))

  bind_refuses :
      (c : RunCheckpoint) (r : Result Bool) (e : Exn)
      → contract_differs c.identity bound ≡ r
      → (r >>= λ differs.
          raise_if differs (resume_error ResumeErrorCause.contract_mismatch) >> later_checks c)
        ≡ err e
      → Flaw c e
  bind_refuses c (err x) e p h =
      let here : x ≡ e = ground arith in differs_raises c e (p ∙ ap err here)
  bind_refuses c (ok differs) e p h =
      raise_if-refuses (Flaw c) differs _ (later_checks c) (λ d. differs→¬Binds c (p ∙ ap ok d))
        (checks_refuse c) e h

  found_refuses :
      (c : RunCheckpoint) (e : Exn)
      → (raise_if (not (c.identity.run_id == run)) (resume_error ResumeErrorCause.run_mismatch)
          >> (contract_differs c.identity bound >>= λ differs.
              raise_if differs (resume_error ResumeErrorCause.contract_mismatch) >> later_checks c))
        ≡ err e
      → Flaw c e
  found_refuses c =
      raise_if-refuses (Flaw c) (not (c.identity.run_id == run)) _ _
        (λ h. ground (arith, ==_iff c.identity.run_id run))
        (λ e h. bind_refuses c (contract_differs c.identity bound) e refl h)

  -- Each failure has its reason: the store's own exception, no checkpoint, or what the exception's
  -- cause says is wrong with the checkpoint that was found.
  pub resume_refuses :
      (load : RunId → Result (Option RunCheckpoint)) (e : Exn)
      → load_run_for_resume run bound baseline policy load ≡ err e
      → (load run ≡ err e)
        ⊎ ((load run ≡ ok none) × (e ≡ resume_error ResumeErrorCause.not_found))
        ⊎ ((c : RunCheckpoint) × (load run ≡ ok (some c)) × Flaw c e)
  unfolding load_run_for_resume
  resume_refuses load e h = elim (Result-cases (load run)) [
    | inr (x, p) ↦ inl (ground arith)
    | inl (none, p) ↦ inr (inl (p, ground arith))
    | inl (some c, p) ↦ inr (inr (c, p, found_refuses c e (ground arith)))
  ]
