-- ===== src/Domain/Command.antt =====
-- src/alicerce/domain/command.py: the request to run a command, and its result.
pub mod Results
pub mod Directory
use alicerce.Prelude.{
  ℕ, zero, suc, Bool, not, ◌||◌, ℕ_discrete, Option, none, some, List, [], map, ℤ, pos, negsuc, Eq,
  ◌==◌, elem, all, length, ltb, is_canonical, list_order, nat_lt_order, Text, Bytes, text, nul,
  backslash, nat_eq, list_eq, if◌then◌else◌,
}
use alicerce.Errors.{Result, ok, err, ◌>>=◌, ◌>>◌, raise_if, value_error, type_error}
use alicerce.DateTime.{DateTime, is_utc, before}
use alicerce.Domain.Patterns.{component_pattern, action_pattern, environment_name_pattern}
use alicerce.Domain.Paths.{parts, as_posix, is_absolute}
use alicerce.Domain.RunIdentity.{RunIdentity, run_id_eq, baseline_sha_eq}
use alicerce.Domain.Workspace.{WorkspaceIdentity, require_format}

pub record ExecutableId : Type 0 where
  pub value : Text

unfoldable pub new_executable_id : Text → Result ExecutableId
unfolding require_format
new_executable_id t = do value ← require_format component_pattern t; ok (record { value = value })

pub record CommandAction : Type 0 where
  pub value : Text

unfoldable pub new_command_action : Text → Result CommandAction
unfolding require_format
new_command_action t = do value ← require_format action_pattern t; ok (record { value = value })

pub record WorkingDirectory : Type 0 where
  pub value : Text

-- The condition under which `WorkingDirectory.__post_init__` raises, for a value that is not ".".
unfoldable pub is_unsafe_directory : Text → Bool
unfolding parts as_posix is_absolute
is_unsafe_directory value =
    value == []
    || elem nul value
    || elem backslash value
    || is_absolute value
    || not (as_posix value == value)
    || not (all (λ part. not (part == text "." || part == text "..")) (parts value))

unfoldable pub new_working_directory : Text → Result WorkingDirectory
unfolding is_unsafe_directory
new_working_directory value =
    if value == text "."
    then ok (record { value = value })
    else do raise_if (is_unsafe_directory value) value_error; ok (record { value = value })

pub record EnvironmentVariable : Type 0 where
  pub name : Text
  pub value : Text

unfoldable pub new_environment_variable : Text → Text → Result EnvironmentVariable
unfolding require_format
new_environment_variable name value = do
  trusted ← require_format environment_name_pattern name
  raise_if (elem nul value) value_error
  ok (record { name = trusted; value = value })

pub data NetworkPolicy : Type 0 where
  deny_all : NetworkPolicy

unfoldable pub require_positive_integer : ℤ → Result ℕ
require_positive_integer (pos zero) = err value_error
require_positive_integer (pos (suc n)) = ok (suc n)
require_positive_integer (negsuc _) = err value_error

pub record CommandLimits : Type 0 where
  pub timeout_ms : ℕ
  pub termination_grace_ms : ℕ
  pub stdout_max_bytes : ℕ
  pub stderr_max_bytes : ℕ

unfoldable pub new_command_limits : ℤ → ℤ → ℤ → ℤ → Result CommandLimits
unfolding require_positive_integer
new_command_limits timeout grace stdout_max stderr_max = do
  timeout_ms ← require_positive_integer timeout
  termination_grace_ms ← require_positive_integer grace
  stdout_max_bytes ← require_positive_integer stdout_max
  stderr_max_bytes ← require_positive_integer stderr_max
  ok (record {
    timeout_ms = timeout_ms;
    termination_grace_ms = termination_grace_ms;
    stdout_max_bytes = stdout_max_bytes;
    stderr_max_bytes = stderr_max_bytes;
  })

pub record CommandRequest : Type 0 where
  pub run_identity : RunIdentity
  pub workspace : WorkspaceIdentity
  pub action : CommandAction
  pub executable : ExecutableId
  pub arguments : List Text
  pub working_directory : WorkingDirectory
  pub environment : List EnvironmentVariable
  pub network_policy : NetworkPolicy
  pub limits : CommandLimits

abbrev pub names : List EnvironmentVariable → List Text
names = map (λ (entry : EnvironmentVariable). entry.name)

-- `CommandRequest.__post_init__`
unfoldable pub new_command_request : CommandRequest → Result CommandRequest
new_command_request r = do
  raise_if
      (not (r.workspace.run_id == r.run_identity.run_id)
        || not (r.workspace.baseline_sha == r.run_identity.baseline_sha))
      value_error
  raise_if (not (all (λ argument. not (elem nul argument)) r.arguments)) value_error
  raise_if (not (is_canonical (names r.environment))) value_error
  ok r

pub data ExecutionTermination : Type 0 where
  exited timed_out cancelled output_limit : ExecutionTermination

pub record ExecutionResult : Type 0 where
  pub request : CommandRequest
  pub termination : ExecutionTermination
  pub exit_code : Option ℤ
  pub stdout : Bytes
  pub stderr : Bytes
  pub started_at : DateTime
  pub finished_at : DateTime

-- An exit code is there exactly for a command that exited.
unfoldable pub require_exit_code : ExecutionTermination → Option ℤ → Result (Unit {0})
require_exit_code exited none = err type_error
require_exit_code exited (some _) = ok tt
require_exit_code _ none = ok tt
require_exit_code _ (some _) = err value_error

-- `ExecutionResult.__post_init__`
unfoldable pub new_execution_result : ExecutionResult → Result ExecutionResult
unfolding require_exit_code
new_execution_result r = do
  require_exit_code r.termination r.exit_code
  raise_if (ltb r.request.limits.stdout_max_bytes (length r.stdout)) value_error
  raise_if (ltb r.request.limits.stderr_max_bytes (length r.stderr)) value_error
  raise_if (not (is_utc r.started_at) || not (is_utc r.finished_at)) value_error
  raise_if (before r.finished_at r.started_at) value_error
  ok r

unfoldable pub ExecutableId-discrete : Discrete ExecutableId
unfolding ℕ_discrete
ExecutableId-discrete = hlevel ℕ_discrete

instance abbrev pub executable_id_eq : Eq ExecutableId
executable_id_eq = record { dec = ExecutableId-discrete }

unfoldable pub CommandAction-discrete : Discrete CommandAction
unfolding ℕ_discrete
CommandAction-discrete = hlevel ℕ_discrete

instance abbrev pub command_action_eq : Eq CommandAction
command_action_eq = record { dec = CommandAction-discrete }

unfoldable pub WorkingDirectory-discrete : Discrete WorkingDirectory
unfolding ℕ_discrete
WorkingDirectory-discrete = hlevel ℕ_discrete

instance abbrev pub working_directory_eq : Eq WorkingDirectory
working_directory_eq = record { dec = WorkingDirectory-discrete }

unfoldable pub NetworkPolicy-discrete : Discrete NetworkPolicy
NetworkPolicy-discrete = hlevel

instance abbrev pub network_policy_eq : Eq NetworkPolicy
network_policy_eq = record { dec = NetworkPolicy-discrete }
