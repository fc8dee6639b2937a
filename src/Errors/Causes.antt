-- ===== src/Errors/Causes.antt =====
-- The `...Cause` enumerations of the domain, the ports and the application.
-- domain/lifecycle.py
pub data LifecycleErrorCause : Type 0 where
  invalid_transition terminal_state time_regression : LifecycleErrorCause
  final_state_required final_state_forbidden : LifecycleErrorCause

-- domain/state.py
pub data StateInvariantCause : Type 0 where
  run_mismatch time_regression revision_mismatch state_mismatch event_mismatch : StateInvariantCause

-- domain/contract_binding.py
pub data ContractBindingCause : Type 0 where
  invalid_utf8 invalid_json invalid_document invalid_contract binding_mismatch :
      ContractBindingCause

-- domain/command_policy.py
pub data CommandAuthorizationErrorCause : Type 0 where
  policy_hash_mismatch action_denied executable_denied : CommandAuthorizationErrorCause
  arguments_denied working_directory_denied : CommandAuthorizationErrorCause
  environment_denied limit_exceeded : CommandAuthorizationErrorCause

-- application/resume.py
pub data ResumeErrorCause : Type 0 where
  not_found run_mismatch contract_mismatch baseline_mismatch : ResumeErrorCause
  policy_mismatch terminal_run : ResumeErrorCause

-- ports/state_store.py
pub data StateStoreErrorCause : Type 0 where
  already_exists not_found conflict corrupt storage_failure : StateStoreErrorCause

-- ports/workspace.py
pub data WorkspaceErrorCause : Type 0 where
  already_exists not_found conflict isolation_failure storage_failure : WorkspaceErrorCause

-- ports/command_executor.py
pub data CommandExecutionErrorCause : Type 0 where
  policy_denied workspace_not_found executable_unavailable : CommandExecutionErrorCause
  spawn_failed cleanup_failed isolation_failure : CommandExecutionErrorCause

-- adapters/local/process_sandbox.py
pub data SandboxErrorCause : Type 0 where
  spawn_failed cleanup_failed isolation_failure : SandboxErrorCause

-- adapters/local/git_cli.py
pub data GitCliErrorCause : Type 0 where
  invalid_configuration invalid_path destination_exists timeout : GitCliErrorCause
  output_limit command_failed baseline_mismatch : GitCliErrorCause
