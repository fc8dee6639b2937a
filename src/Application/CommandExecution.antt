-- ===== src/Application/CommandExecution.antt =====
-- src/alicerce/application/command_execution.py: authorization before execution. The executor of the
-- port is a parameter.
use alicerce.Prelude.{◌≡◌, In}
use alicerce.Errors.{Result, ok, ◌>>=◌, bind_ok}
use alicerce.Domain.Command.{CommandRequest, ExecutionResult}
use alicerce.Domain.CommandPolicy.{CommandPolicy, AuthorizedCommand, authorize_command}
use alicerce.Domain.CommandPolicy.Covers.{Governs, Covers}
use alicerce.Domain.CommandPolicy.Authorize.{authorize_sound}

unfoldable pub execute_authorized_command :
    CommandRequest
    → CommandPolicy
    → (AuthorizedCommand → Result ExecutionResult)
    → Result ExecutionResult
execute_authorized_command request policy execute = do
  authorized ← authorize_command request policy
  execute authorized

-- A result comes from the executor, on a command whose rule is one of the run's policy and covers the
-- request.
pub executes_covered :
    (request : CommandRequest) (policy : CommandPolicy)
    (execute : AuthorizedCommand → Result ExecutionResult) (r : ExecutionResult)
    → execute_authorized_command request policy execute ≡ ok r
    → (a : AuthorizedCommand) × (execute a ≡ ok r)
      × (authorize_command request policy ≡ ok a)
      × Governs request policy
      × In a.rule policy.rules
      × Covers request a.rule
unfolding execute_authorized_command
executes_covered request policy execute r h =
    let (a, authorized, ran) = bind_ok (authorize_command request policy) execute h in
    let (governs, there, covers, _, _) = authorize_sound request policy a authorized in
    (a, ran, authorized, governs, there, covers)
