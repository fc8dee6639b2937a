-- ===== src/Domain/CommandPolicy.antt =====
-- src/alicerce/domain/command_policy.py: the authorization of a command by a run's trusted rules.
pub mod Covers
pub mod Authorize
use alicerce.Prelude.{
  ℕ, Bool, true, false, not, ◌&&◌, ◌||◌, ℕ_discrete, Option, none, some, List, [], ◌∷◌, map, Eq,
  ◌==◌, elem, all, select, leb, is_canonical, list_order, pair_order, nat_lt_order, Text, text, nul,
  nat_eq, list_eq, pair_eq, if◌then◌else◌,
}
use alicerce.Errors.{
  Result, ok, ◌>>=◌, ◌>>◌, raise_if, or_raise, traverse, value_error, authorization_error,
  CommandAuthorizationErrorCause,
}
use alicerce.Domain.Contracts.{Actions}
use alicerce.Domain.RunIdentity.{PolicyHash, policy_hash_eq}
use alicerce.Domain.Command.{
  CommandAction, ExecutableId, WorkingDirectory, NetworkPolicy, deny_all, CommandLimits,
  CommandRequest, names, new_environment_variable, command_action_eq, executable_id_eq,
  working_directory_eq, network_policy_eq,
}

pub record CommandRule : Type 0 where
  pub action : CommandAction
  pub executable : ExecutableId
  pub arguments : List Text
  pub working_directory : WorkingDirectory
  pub environment_names : List Text
  pub network_policy : NetworkPolicy
  pub max_limits : CommandLimits

-- `CommandRule.__post_init__`
unfoldable pub new_command_rule : CommandRule → Result CommandRule
new_command_rule rule = do
  raise_if (not (all (λ argument. not (elem nul argument)) rule.arguments)) value_error
  traverse (λ name. new_environment_variable name []) rule.environment_names
  raise_if (not (is_canonical rule.environment_names)) value_error
  ok rule

abbrev pub network_value : NetworkPolicy → Text
network_value deny_all = text "deny_all"

-- the tuple of ten components, to the right
abbrev pub RuleKey : Type 0
RuleKey = Text × (Text × (List Text × (Text × (List Text × (Text × (ℕ × (ℕ × (ℕ × ℕ))))))))

unfoldable pub rule_key : CommandRule → RuleKey
rule_key rule = (
  rule.action.value,
  (
    rule.executable.value,
    (
      rule.arguments,
      (
        rule.working_directory.value,
        (
          rule.environment_names,
          (
            network_value rule.network_policy,
            (
              rule.max_limits.timeout_ms,
              (
                rule.max_limits.termination_grace_ms,
                (rule.max_limits.stdout_max_bytes, rule.max_limits.stderr_max_bytes),
              ),
            ),
          ),
        ),
      ),
    ),
  ),
)

pub record CommandPolicy : Type 0 where
  pub policy_hash : PolicyHash
  pub actions : Actions
  pub rules : List CommandRule

-- `action in allowed and action not in denied`
unfoldable pub is_allowed : Actions → Text → Bool
is_allowed actions action = elem action actions.allowed && not (elem action actions.denied)

-- `CommandPolicy.__post_init__`
unfoldable pub new_command_policy : CommandPolicy → Result CommandPolicy
unfolding is_allowed
new_command_policy policy = do
  raise_if (not (is_canonical (map rule_key policy.rules))) value_error
  raise_if
      (not (all (λ (rule : CommandRule). is_allowed policy.actions rule.action.value) policy.rules))
      value_error
  ok policy

-- The requested ceilings are within the rule's.
unfoldable pub within_limits : CommandLimits → CommandLimits → Bool
within_limits requested maximum =
    leb requested.timeout_ms maximum.timeout_ms
    && leb requested.termination_grace_ms maximum.termination_grace_ms
    && leb requested.stdout_max_bytes maximum.stdout_max_bytes
    && leb requested.stderr_max_bytes maximum.stderr_max_bytes

-- `for rule in candidates: if ...: return rule`
unfoldable pub first_within : CommandLimits → List CommandRule → Option CommandRule
unfolding within_limits
first_within requested [] = none
first_within requested (rule ∷ rules) =
    if within_limits requested rule.max_limits then some rule else first_within requested rules

abbrev pub is_empty {ℓ} : {A : Type ℓ} → List A → Bool
is_empty [] = true
is_empty (_ ∷ _) = false

-- `set(xs).issubset(ys)`
unfoldable pub is_subset : List Text → List Text → Bool
is_subset xs ys = all (λ x. elem x ys) xs

-- `_matching_rule`
unfoldable pub matching_rule : CommandRequest → CommandPolicy → Result CommandRule
unfolding is_allowed first_within is_subset
matching_rule request policy = do
  raise_if (not (request.run_identity.policy_hash == policy.policy_hash))
      (authorization_error CommandAuthorizationErrorCause.policy_hash_mismatch)
  raise_if (not (is_allowed policy.actions request.action.value))
      (authorization_error CommandAuthorizationErrorCause.action_denied)
  let by_action = select (λ (rule : CommandRule). rule.action == request.action) policy.rules
  raise_if (is_empty by_action) (authorization_error CommandAuthorizationErrorCause.action_denied)
  let by_executable =
      select (λ (rule : CommandRule). rule.executable == request.executable) by_action
  raise_if (is_empty by_executable)
      (authorization_error CommandAuthorizationErrorCause.executable_denied)
  let by_arguments =
      select (λ (rule : CommandRule). rule.arguments == request.arguments) by_executable
  raise_if (is_empty by_arguments)
      (authorization_error CommandAuthorizationErrorCause.arguments_denied)
  let by_directory =
      select (λ (rule : CommandRule). rule.working_directory == request.working_directory)
        by_arguments
  raise_if (is_empty by_directory)
      (authorization_error CommandAuthorizationErrorCause.working_directory_denied)
  let by_environment =
      select
        (λ (rule : CommandRule).
          is_subset (names request.environment) rule.environment_names
          && rule.network_policy == request.network_policy)
        by_directory
  raise_if (is_empty by_environment)
      (authorization_error CommandAuthorizationErrorCause.environment_denied)
  or_raise (first_within request.limits by_environment)
      (authorization_error CommandAuthorizationErrorCause.limit_exceeded)

pub record AuthorizedCommand : Type 0 where
  pub request : CommandRequest
  pub policy : CommandPolicy
  pub rule : CommandRule

unfoldable pub CommandRule-discrete : Discrete CommandRule
unfolding ℕ_discrete
CommandRule-discrete = hlevel ℕ_discrete

instance abbrev pub command_rule_eq : Eq CommandRule
command_rule_eq = record { dec = CommandRule-discrete }

-- `AuthorizedCommand.__post_init__`
unfoldable pub new_authorized_command :
    CommandRequest → CommandPolicy → CommandRule → Result AuthorizedCommand
unfolding matching_rule
new_authorized_command request policy rule = do
  matched ← matching_rule request policy
  raise_if (not (matched == rule)) value_error
  ok (record { request = request; policy = policy; rule = rule })

unfoldable pub authorize_command : CommandRequest → CommandPolicy → Result AuthorizedCommand
unfolding new_authorized_command
authorize_command request policy = do
  rule ← matching_rule request policy
  new_authorized_command request policy rule

unfoldable pub AuthorizedCommand-discrete : Discrete AuthorizedCommand
unfolding ℕ_discrete
AuthorizedCommand-discrete = hlevel ℕ_discrete

instance abbrev pub authorized_command_eq : Eq AuthorizedCommand
authorized_command_eq = record { dec = AuthorizedCommand-discrete }
