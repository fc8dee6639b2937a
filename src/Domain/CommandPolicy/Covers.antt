-- ===== src/Domain/CommandPolicy/Covers.antt =====
-- What it means that a rule covers a request, and the first rule within the ceilings.
use alicerce.Prelude.{
  ◌≤◌, ◌≡◌, refl, sym, inl, inr, true, false, some, List, [], ◌∷◌, elem, In, Bool-cases, arith,
  nat_eq, list_eq,
}
use alicerce.Domain.RunIdentity.{policy_hash_eq}
use alicerce.Domain.Command.{
  CommandLimits, CommandRequest, names, command_action_eq, executable_id_eq, working_directory_eq,
  network_policy_eq,
}
use alicerce.Domain.CommandPolicy.{
  CommandRule, CommandPolicy, command_rule_eq, within_limits, first_within, is_subset, is_empty,
}

-- The rule covers the request in every respect, its ceilings included.
pub record Covers (request : CommandRequest) (rule : CommandRule) : Type 0 where
  pub action : rule.action ≡ request.action
  pub executable : rule.executable ≡ request.executable
  pub arguments : rule.arguments ≡ request.arguments
  pub directory : rule.working_directory ≡ request.working_directory
  pub environment : is_subset (names request.environment) rule.environment_names ≡ true
  pub network : rule.network_policy ≡ request.network_policy
  pub timeout : request.limits.timeout_ms ≤ rule.max_limits.timeout_ms
  pub grace : request.limits.termination_grace_ms ≤ rule.max_limits.termination_grace_ms
  pub stdout : request.limits.stdout_max_bytes ≤ rule.max_limits.stdout_max_bytes
  pub stderr : request.limits.stderr_max_bytes ≤ rule.max_limits.stderr_max_bytes

-- The policy is the run's, and its actions allow the request's.
pub record Governs (request : CommandRequest) (policy : CommandPolicy) : Type 0 where
  pub pinned : request.run_identity.policy_hash ≡ policy.policy_hash
  pub allowed : elem request.action.value policy.actions.allowed ≡ true
  pub not_denied : elem request.action.value policy.actions.denied ≡ false

pub first_within-In :
    (l : CommandLimits) (rules : List CommandRule) (r : CommandRule)
    → first_within l rules ≡ some r
    → In r rules × (within_limits l r.max_limits ≡ true)
unfolding first_within
first_within-In l [] r h = cc
first_within-In l (x ∷ rules) r h = elim (Bool-cases (within_limits l x.max_limits)) [
  | inl fits ↦ let g : x ≡ r = (ground (arith, fits)) in (inl (sym g), rw (← g) fits)
  | inr over ↦
      let (there, fits) = first_within-In l rules r (ground (arith, over)) in (inr there, fits)
]

pub In-first_within :
    (l : CommandLimits) (rules : List CommandRule) (r : CommandRule)
    → In r rules
    → within_limits l r.max_limits ≡ true
    → (s : CommandRule) × (first_within l rules ≡ some s)
unfolding first_within
In-first_within l [] r h fits = absurd h
In-first_within l (x ∷ rules) r (inl same) fits = (r, ground arith)
In-first_within l (x ∷ rules) r (inr later) fits =
    let (s, found) = In-first_within l rules r later fits in
    elim (Bool-cases (within_limits l x.max_limits)) [
      | inl here ↦ (x, rw (here, first_within))
      | inr over ↦ (s, rw (over, first_within) found)
    ]

pub In-is_empty : (r : CommandRule) (rules : List CommandRule) → In r rules → is_empty rules ≡ false
In-is_empty r [] h = absurd h
In-is_empty r (x ∷ rules) h = refl

pub within_sound :
    {l m : CommandLimits}
    → within_limits l m ≡ true
    → (l.timeout_ms ≤ m.timeout_ms)
      × (l.termination_grace_ms ≤ m.termination_grace_ms)
      × (l.stdout_max_bytes ≤ m.stdout_max_bytes)
      × (l.stderr_max_bytes ≤ m.stderr_max_bytes)
unfolding within_limits
within_sound h = (ground arith, ground arith, ground arith, ground arith)

pub limits_within :
    {request : CommandRequest} {r : CommandRule}
    → Covers request r
    → within_limits request.limits r.max_limits ≡ true
unfolding within_limits
limits_within c = ground (arith, c.timeout, c.grace, c.stdout, c.stderr)
