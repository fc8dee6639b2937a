-- ===== src/Domain/CommandPolicy/Authorize.antt =====
-- Which commands the policy authorizes, and by which rule.
use mathlib.Core.Path.{subst}
use alicerce.Prelude.{
  ap, ◌≡◌, refl, sym, ◌∙◌, Bool, true, false, not, ◌&&◌, some, List, ◌==◌, ==_iff, eq_self, eq→path,
  and_left, and_right, select, In, In-select, In-of_select, arith, nat_eq, list_eq,
}
use alicerce.Errors.{or_raise_ok, ok, raise_if_ok, bind_ok}
use alicerce.Domain.RunIdentity.{policy_hash_eq}
use alicerce.Domain.Command.{
  CommandRequest, names, command_action_eq, executable_id_eq, working_directory_eq,
  network_policy_eq,
}
use alicerce.Domain.CommandPolicy.{
  CommandRule, CommandPolicy, AuthorizedCommand, command_rule_eq, is_allowed, first_within,
  is_subset, is_empty, matching_rule, new_authorized_command, authorize_command,
}
use alicerce.Domain.CommandPolicy.Covers.{
  In-is_empty, Covers, Governs, first_within-In, In-first_within, within_sound, limits_within,
}

module _ (request : CommandRequest) (policy : CommandPolicy) where
  -- the candidates that stand before the ceilings are compared
  abbrev by_action : List CommandRule
  by_action = select (λ (rule : CommandRule). rule.action == request.action) policy.rules

  abbrev by_executable : List CommandRule
  by_executable = select (λ (rule : CommandRule). rule.executable == request.executable) by_action

  abbrev by_arguments : List CommandRule
  by_arguments = select (λ (rule : CommandRule). rule.arguments == request.arguments) by_executable

  abbrev by_directory : List CommandRule
  by_directory =
      select (λ (rule : CommandRule). rule.working_directory == request.working_directory)
        by_arguments

  abbrev fits_environment : CommandRule → Bool
  fits_environment rule =
      is_subset (names request.environment) rule.environment_names
      && rule.network_policy == request.network_policy

  abbrev by_environment : List CommandRule
  by_environment = select fits_environment by_directory

  allowed_here : Governs request policy → is_allowed policy.actions request.action.value ≡ true
  unfolding is_allowed
  allowed_here g = ground (arith, g.allowed, g.not_denied)

  governs :
      not (request.run_identity.policy_hash == policy.policy_hash) ≡ false
      → not (is_allowed policy.actions request.action.value) ≡ false
      → Governs request policy
  unfolding is_allowed
  governs p a = record {
    pinned = ground (arith, ==_iff request.run_identity.policy_hash policy.policy_hash);
    allowed = ground arith;
    not_denied = ground arith;
  }

  governed :
      {r : CommandRule}
      → matching_rule request policy ≡ ok r
      → Governs request policy × (first_within request.limits by_environment ≡ some r)
  unfolding matching_rule
  governed h =
      let (pinned, h1) =
        raise_if_ok (not (request.run_identity.policy_hash == policy.policy_hash)) _ _ h in
      let (allowed, h2) =
        raise_if_ok (not (is_allowed policy.actions request.action.value)) _ _ h1 in
      let (_, h3) = raise_if_ok (is_empty by_action) _ _ h2 in
      let (_, h4) = raise_if_ok (is_empty by_executable) _ _ h3 in
      let (_, h5) = raise_if_ok (is_empty by_arguments) _ _ h4 in
      let (_, h6) = raise_if_ok (is_empty by_directory) _ _ h5 in
      let (_, h7) = raise_if_ok (is_empty by_environment) _ _ h6 in
      (governs pinned allowed, or_raise_ok _ _ h7)

  -- A rule that authorizes stands in the run's policy and covers the request.
  pub matching_rule_sound :
      (r : CommandRule)
      → matching_rule request policy ≡ ok r
      → Governs request policy × In r policy.rules × Covers request r
  matching_rule_sound r h =
      let (governs, first) = governed h in
      let (in5, limits) = first_within-In request.limits by_environment r first in
      let (in4, environment) = In-of_select fits_environment r by_directory in5 in
      let (in3, directory) = In-of_select _ r by_arguments in4 in
      let (in2, arguments) = In-of_select _ r by_executable in3 in
      let (in1, executable) = In-of_select _ r by_action in2 in
      let (in0, action) = In-of_select _ r policy.rules in1 in
      (
        governs,
        in0,
        record {
          action = eq→path r.action request.action action;
          executable = eq→path r.executable request.executable executable;
          arguments = eq→path r.arguments request.arguments arguments;
          directory = eq→path r.working_directory request.working_directory directory;
          environment = and_left _ _ environment;
          network = eq→path r.network_policy request.network_policy (and_right _ _ environment);
          timeout = (within_sound limits).0;
          grace = (within_sound limits).1;
          stdout = (within_sound limits).2;
          stderr = (within_sound limits).3;
        },
      )

  -- If some rule of the run's policy covers the request, a rule authorizes it.
  pub matching_rule_complete :
      (r : CommandRule)
      → Governs request policy
      → In r policy.rules
      → Covers request r
      → (s : CommandRule) × (matching_rule request policy ≡ ok s)
  unfolding matching_rule
  matching_rule_complete r g there c =
      let in1 =
        In-select (λ (rule : CommandRule). rule.action == request.action) r policy.rules there
          ((==_iff _ _).1 c.action) in
      let in2 =
        In-select (λ (rule : CommandRule). rule.executable == request.executable) r by_action in1
          ((==_iff _ _).1 c.executable) in
      let in3 =
        In-select (λ (rule : CommandRule). rule.arguments == request.arguments) r by_executable in2
          ((==_iff _ _).1 c.arguments) in
      let in4 =
        In-select (λ (rule : CommandRule). rule.working_directory == request.working_directory) r
          by_arguments in3 ((==_iff _ _).1 c.directory) in
      let in5 =
        In-select fits_environment r by_directory in4
          (ground (arith, c.environment, ==_iff r.network_policy request.network_policy)) in
      let (s, found) = In-first_within request.limits by_environment r in5 (limits_within c) in
      (
        s,
        rw (
          (==_iff _ _).1 g.pinned,
          allowed_here g,
          In-is_empty r by_action in1,
          In-is_empty r by_executable in2,
          In-is_empty r by_arguments in3,
          In-is_empty r by_directory in4,
          In-is_empty r by_environment in5,
          found,
        ),
      )

module _ (request : CommandRequest) (policy : CommandPolicy) where
  abbrev authorized : CommandRule → AuthorizedCommand
  authorized rule = record { request = request; policy = policy; rule = rule }

  new_authorized_command_sound :
      (rule : CommandRule) {a : AuthorizedCommand}
      → new_authorized_command request policy rule ≡ ok a
      → (matching_rule request policy ≡ ok rule) × (a ≡ authorized rule)
  unfolding new_authorized_command
  new_authorized_command_sound rule h =
      let (matched, found, h1) = bind_ok (matching_rule request policy) _ h in
      let (same, h2) = raise_if_ok (not (matched == rule)) _ _ h1 in
      (found ∙ ap ok (eq→path matched rule (ground arith)), ground arith)

  authorize-accepts :
      (rule : CommandRule)
      → matching_rule request policy ≡ ok rule
      → authorize_command request policy ≡ ok (authorized rule)
  unfolding authorize_command
  authorize-accepts rule h = rw (h, eq_self rule)

  -- An authorized command is under the run's policy, whose actions allow its action, and by a rule of
  -- that policy that covers the request in action, executable, arguments, directory, environment,
  -- network and all four ceilings; it carries the request and the policy unchanged.
  pub authorize_sound :
      (a : AuthorizedCommand)
      → authorize_command request policy ≡ ok a
      → Governs request policy
        × In a.rule policy.rules
        × Covers request a.rule
        × (a.request ≡ request)
        × (a.policy ≡ policy)
  unfolding authorize_command
  authorize_sound a h =
      let (rule, found, h1) = bind_ok (matching_rule request policy) _ h in
      let (_, same) = new_authorized_command_sound rule h1 in
      let (governs, there, covers) = matching_rule_sound request policy rule found in
      subst
        (λ (x : AuthorizedCommand).
          Governs request policy
          × In x.rule policy.rules
          × Covers request x.rule
          × (x.request ≡ request)
          × (x.policy ≡ policy))
        (sym same) (governs, there, covers, refl, refl)

  -- If the policy is the run's, its actions allow the request's action, and one of its rules covers
  -- the request in every respect, the request is authorized.
  pub authorize_complete :
      (rule : CommandRule)
      → Governs request policy
      → In rule policy.rules
      → Covers request rule
      → (a : AuthorizedCommand) × (authorize_command request policy ≡ ok a)
  authorize_complete rule governs there covers =
      let (found, matched) = matching_rule_complete request policy rule governs there covers in
      (authorized found, authorize-accepts found matched)

  -- Authorizing an authorized command again gives the same command, so the executor's second check
  -- never refuses one that was built by its constructor.
  pub reauthorize :
      (rule : CommandRule) (a : AuthorizedCommand)
      → new_authorized_command request policy rule ≡ ok a
      → authorize_command a.request a.policy ≡ ok a
  reauthorize rule a h =
      let (matched, same) = new_authorized_command_sound rule h in
      subst (λ (x : AuthorizedCommand). authorize_command x.request x.policy ≡ ok x) (sym same)
        (authorize-accepts rule matched)
