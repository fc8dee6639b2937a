-- ===== src/Adapters/CommandExecutor.antt =====
-- src/alicerce/adapters/local/command_executor.py, with the types of process_sandbox.py: the
-- coordination of one execution. The file system, the lease of the workspace and the sandbox are the
-- host, a parameter.
pub mod Executes
use alicerce.Prelude.{
  ℕ, Bool, true, false, not, ◌&&◌, ◌||◌, ℕ_discrete, Option, none, some, List, [], ◌∷◌, ◌++◌, ℤ, Eq,
  ◌==◌, Text, Bytes, text, nat_eq, list_eq, if◌then◌else◌,
}
use alicerce.Errors.{
  Exn, os_error, authorization_error, workspace_error, sandbox_error, Result, ok, err, raise_if,
  or_raise, is_type_or_value_error, execution_error, CommandExecutionErrorCause, SandboxErrorCause,
  WorkspaceErrorCause,
}
use alicerce.DateTime.{DateTime}
use alicerce.Domain.Paths.{parts}
use alicerce.Domain.Workspace.{WorkspaceIdentity}
use alicerce.Domain.Command.{
  ExecutableId, executable_id_eq, WorkingDirectory, EnvironmentVariable, NetworkPolicy,
  CommandLimits, ExecutionTermination, ExecutionResult, new_execution_result,
}
use alicerce.Domain.CommandPolicy.{AuthorizedCommand, authorized_command_eq, authorize_command}
use alicerce.Adapters.FileSystem.{HostPath, is_relative_to}
use alicerce.Adapters.Host.{Action, ◌>>=◌, ◌>>◌, lift, rethrow}

pub record TrustedExecutable : Type 0 where
  pub executable_id : ExecutableId
  pub path : HostPath
  pub sha256 : Bytes

pub record SandboxInvocation : Type 0 where
  pub executable : HostPath
  pub arguments : List Text
  pub workspace_root : HostPath
  pub working_directory : HostPath
  pub environment : List EnvironmentVariable
  pub network_policy : NetworkPolicy
  pub limits : CommandLimits

pub record SandboxResult : Type 0 where
  pub termination : ExecutionTermination
  pub exit_code : Option ℤ
  pub stdout : Bytes
  pub stderr : Bytes
  pub started_at : DateTime
  pub finished_at : DateTime

pub record Host : Type 1 where
  pub World : Type 0
  pub is_symlink : HostPath → Action World Bool
  -- `path.resolve(strict=True)`
  pub resolve : HostPath → Action World HostPath
  pub is_file : HostPath → Action World Bool
  pub is_dir : HostPath → Action World Bool
  -- `os.access(path, os.X_OK)`
  pub is_executable : HostPath → Action World Bool
  pub file_sha256 : HostPath → Action World Bytes
  -- the two ends of `LocalGitWorkspace.execution_lease`
  pub enter_lease : WorkspaceIdentity → Action World HostPath
  pub exit_lease : WorkspaceIdentity → Action World (Unit {0})
  pub supports : NetworkPolicy → Action World Bool
  -- `ProcessSandboxBackend.execute`
  pub run : SandboxInvocation → Action World SandboxResult

abbrev pub isolation_failure : Exn
isolation_failure = execution_error CommandExecutionErrorCause.isolation_failure

-- The `except` clauses, as what each makes of an exception.
unfoldable pub unavailable_executable : Exn → Exn
unavailable_executable os_error = execution_error CommandExecutionErrorCause.executable_unavailable
unavailable_executable e = e

unfoldable pub unavailable_directory : Exn → Exn
unavailable_directory os_error = isolation_failure
unavailable_directory e = e

unfoldable pub denied : Exn → Exn
denied (authorization_error _) = execution_error CommandExecutionErrorCause.policy_denied
denied e = e

unfoldable pub translate_sandbox_error : Exn → Exn
translate_sandbox_error (sandbox_error SandboxErrorCause.spawn_failed) =
    execution_error CommandExecutionErrorCause.spawn_failed
translate_sandbox_error (sandbox_error SandboxErrorCause.cleanup_failed) =
    execution_error CommandExecutionErrorCause.cleanup_failed
translate_sandbox_error (sandbox_error SandboxErrorCause.isolation_failure) = isolation_failure
translate_sandbox_error e = e

unfoldable pub invalid_result : Exn → Exn
unfolding is_type_or_value_error
invalid_result e = if is_type_or_value_error e then isolation_failure else e

unfoldable pub lease_failed : Exn → Exn
lease_failed (workspace_error WorkspaceErrorCause.not_found) =
    execution_error CommandExecutionErrorCause.workspace_not_found
lease_failed (workspace_error _) = isolation_failure
lease_failed e = e

-- `self._executables.get(executable_id)`
unfoldable pub find_executable : ExecutableId → List TrustedExecutable → Option TrustedExecutable
find_executable id [] = none
find_executable id (executable ∷ rest) =
    if executable.executable_id == id then some executable else find_executable id rest

-- the parts of "." are none
unfoldable pub relative_parts : WorkingDirectory → List Text
relative_parts relative = if relative.value == text "." then [] else parts relative.value

module _ ⦃host : Host⦄ where
  abbrev pub Act : Type 0 → Type 0
  Act A = Action host.World A

  abbrev pub refuse_if : Bool → Act (Unit {0})
  refuse_if b = lift (raise_if b isolation_failure)

  -- `TrustedExecutable.verify`
  unfoldable pub verify : TrustedExecutable → Act (Unit {0})
  verify executable = rethrow unavailable_executable (do
    symlink ← host.is_symlink executable.path
    refuse_if symlink
    resolved ← host.resolve executable.path
    refuse_if (not (resolved == executable.path))
    file ← host.is_file executable.path
    refuse_if (not file)
    access ← host.is_executable executable.path
    refuse_if (not access)
    digest ← host.file_sha256 executable.path
    refuse_if (not (digest == executable.sha256)))

  -- `for part in parts: candidate /= part; …`
  unfoldable pub walk : HostPath → List Text → Act HostPath
  walk candidate [] = lift (ok candidate)
  walk candidate (part ∷ rest) = do
    symlink ← host.is_symlink (candidate ++ part ∷ [])
    refuse_if symlink
    walk (candidate ++ part ∷ []) rest

  unfoldable pub resolve_working_directory : HostPath → WorkingDirectory → Act HostPath
  resolve_working_directory root relative = do
    candidate ← walk root (relative_parts relative)
    resolved ← rethrow unavailable_directory (host.resolve candidate)
    directory ← host.is_dir resolved
    refuse_if (not directory || not (is_relative_to resolved root))
    lift (ok resolved)

  -- `with self._workspace.execution_lease(workspace) as root: …`: the second validation runs in
  -- either case, and its exception comes before that of the body.
  unfoldable pub with_lease {ℓ} :
      {A : Type ℓ} → WorkspaceIdentity → (HostPath → Action host.World A) → Action host.World A
  with_lease workspace body = do
    root ← host.enter_lease workspace
    λ world.
        let (result, leased) = body root world in (do host.exit_lease workspace; lift result) leased

  abbrev pub invocation :
      AuthorizedCommand → TrustedExecutable → HostPath → HostPath → SandboxInvocation
  invocation command executable root working_directory = record {
    executable = executable.path;
    arguments = command.request.arguments;
    workspace_root = root;
    working_directory = working_directory;
    environment = command.request.environment;
    network_policy = command.request.network_policy;
    limits = command.request.limits;
  }

  abbrev pub result_of : AuthorizedCommand → SandboxResult → ExecutionResult
  result_of command r = record {
    request = command.request;
    termination = r.termination;
    exit_code = r.exit_code;
    stdout = r.stdout;
    stderr = r.stderr;
    started_at = r.started_at;
    finished_at = r.finished_at;
  }

  -- The body of the `with` statement.
  unfoldable pub run_leased : AuthorizedCommand → TrustedExecutable → HostPath → Act ExecutionResult
  run_leased command executable root = do
    working_directory ← resolve_working_directory root command.request.working_directory
    verify executable
    result ←
        rethrow translate_sandbox_error
          (host.run (invocation command executable root working_directory))
    verify executable
    rethrow invalid_result (lift (new_execution_result (result_of command result)))

  -- `LocalCommandExecutor.execute`
  unfoldable pub execute : List TrustedExecutable → AuthorizedCommand → Act ExecutionResult
  unfolding run_leased
  execute executables command = do
    reauthorized ← rethrow denied (lift (authorize_command command.request command.policy))
    lift (
        raise_if (not (reauthorized == command))
          (execution_error CommandExecutionErrorCause.policy_denied))
    executable ← lift (
        or_raise (find_executable command.request.executable executables)
          (execution_error CommandExecutionErrorCause.executable_unavailable))
    supported ← host.supports command.request.network_policy
    lift (raise_if (not supported) (execution_error CommandExecutionErrorCause.policy_denied))
    verify executable
    rethrow lease_failed (with_lease command.request.workspace (run_leased command executable))
