-- ===== src/Tests/Commands.antt =====
-- The authorization and the execution of the sample request.
use alicerce.Prelude.{
  list-discrete, ℕ_discrete, ◌≡◌, refl, inl, some, [], In, elem, text, ◌==◌, list_eq, nat_eq, arith,
  pos,
}
use alicerce.Errors.{Result, ok}
use alicerce.Domain.Command.{
  ExecutionResult, exited, CommandAction-discrete, ExecutableId-discrete, WorkingDirectory-discrete,
  NetworkPolicy-discrete,
}
use alicerce.Domain.RunIdentity.{PolicyHash-discrete}
use alicerce.Domain.CommandPolicy.{
  AuthorizedCommand, authorize_command, new_authorized_command, matching_rule, is_subset,
  is_allowed, first_within, within_limits, CommandRule-discrete,
}
use alicerce.Domain.CommandPolicy.Covers.{Governs, Covers}
use alicerce.Domain.CommandPolicy.Authorize.{authorize_sound, authorize_complete, reauthorize}
use alicerce.Application.CommandExecution.{execute_authorized_command, executes_covered}
use alicerce.Tests.Samples.{noon, later, request, rule, policy}

governs : Governs request policy
unfolding elem ◌==◌ list-discrete ℕ_discrete
governs = record { pinned = refl; allowed = refl; not_denied = refl }

covers : Covers request rule
unfolding is_subset elem ◌==◌ list-discrete ℕ_discrete
covers = record {
  action = refl;
  executable = refl;
  arguments = refl;
  directory = refl;
  environment = refl;
  network = refl;
  timeout = omega arith;
  grace = omega arith;
  stdout = omega arith;
  stderr = omega arith;
}

authorize_complete_example : (a : AuthorizedCommand) × (authorize_command request policy ≡ ok a)
authorize_complete_example = authorize_complete request policy rule governs (inl refl) covers

abbrev pub command : AuthorizedCommand
command = record { request = request; policy = policy; rule = rule }

pub authorizes : authorize_command request policy ≡ ok command
unfolding authorize_command new_authorized_command matching_rule is_allowed first_within
    within_limits is_subset elem ◌==◌ list-discrete ℕ_discrete CommandAction-discrete
    ExecutableId-discrete WorkingDirectory-discrete NetworkPolicy-discrete PolicyHash-discrete
    CommandRule-discrete
authorizes = refl

authorize_sound_example :
    Governs request policy
    × In rule policy.rules
    × Covers request rule
    × (request ≡ request)
    × (policy ≡ policy)
authorize_sound_example = authorize_sound request policy command authorizes

constructs : new_authorized_command request policy rule ≡ ok command
unfolding new_authorized_command matching_rule is_allowed first_within within_limits is_subset elem
    ◌==◌ list-discrete ℕ_discrete CommandAction-discrete ExecutableId-discrete
    WorkingDirectory-discrete NetworkPolicy-discrete PolicyHash-discrete CommandRule-discrete
constructs = refl

reauthorize_example : authorize_command request policy ≡ ok command
reauthorize_example = reauthorize request policy rule command constructs

abbrev pub outcome : ExecutionResult
outcome = record {
  request = request;
  termination = exited;
  exit_code = some (pos 0);
  stdout = text "Python 3";
  stderr = [];
  started_at = noon;
  finished_at = later;
}

abbrev execute : AuthorizedCommand → Result ExecutionResult
execute _ = ok outcome

executes : execute_authorized_command request policy execute ≡ ok outcome
unfolding execute_authorized_command
executes = rw authorizes

executes_covered_example :
    (a : AuthorizedCommand) × (execute a ≡ ok outcome)
    × (authorize_command request policy ≡ ok a)
    × Governs request policy
    × In a.rule policy.rules
    × Covers request a.rule
executes_covered_example = executes_covered request policy execute outcome executes
