-- ===== src/Tests/Samples.antt =====
-- Values for the tests: an identity, a run with one transition, a codec that knows them, a policy and
-- a request, and a contract with its tools.
use mathlib.Core.Path.{subst}
use alicerce.Prelude.{
  ℕ_discrete, zero, ◌≡◌, ◌⊎◌, inl, inr, refl, sym, ap, ◌∙◌, none, some, [], ◌∷◌, Text, Bytes, text,
  nat_eq, list_eq, arith,
}
use alicerce.Errors.{Result, ok}
use alicerce.DateTime.{DateTime, utc}
use alicerce.Domain.Contracts.{FinalStates}
use alicerce.Domain.RunIdentity.{RunIdentity}
use alicerce.Domain.Lifecycle.{
  contract_bound, workspace_prepared, LifecycleActor, LifecycleTransition,
}
use alicerce.Domain.Command.{deny_all, CommandLimits, CommandRequest}
use alicerce.Domain.CommandPolicy.{CommandRule, CommandPolicy}
use alicerce.Json.{object, no_members}
use alicerce.Domain.ContractBinding.{ContractTools, BoundContract}
use alicerce.Domain.State.{RunCheckpoint, run_checkpoint_eq}
use alicerce.Adapters.StateCodec.{StateCodec}

-- Two of the values of tests/test_canonical_types.py
instance abbrev pub final_states : FinalStates
final_states = record { values = text "SUCCEEDED" ∷ text "FAILED_QUALITY_GATE" ∷ [] }

abbrev pub noon : DateTime
noon = record {
  year = 2026;
  month = 7;
  day = 24;
  hour = 12;
  minute = 0;
  second = 0;
  microsecond = 0;
  tzinfo = utc;
}

abbrev pub later : DateTime
later = record noon { minute = 5 }

abbrev pub builder : LifecycleActor
builder = record { value = text "builder" }

abbrev pub hash : Text
hash = text "aaaaaaaaaaaaaaaaaaaaaaaaaaaaaaaaaaaaaaaaaaaaaaaaaaaaaaaaaaaaaaaa"

abbrev pub sha : Text
sha = text "0123456789012345678901234567890123456789"

abbrev pub identity : RunIdentity
identity = record {
  run_id = record { value = text "run-1" };
  contract_id = record { value = text "contract" };
  contract_version = record { value = text "1" };
  contract_hash = record { value = hash };
  baseline_sha = record { value = sha };
  policy_hash = record { value = hash };
  created_at = noon;
}

abbrev pub first_checkpoint : RunCheckpoint
first_checkpoint = record {
  identity = identity;
  lifecycle = record {
    run_id = identity.run_id;
    state = contract_bound;
    revision = 0;
    updated_at = noon;
    final_state = none;
  };
}

abbrev pub prepared_event : LifecycleTransition
prepared_event = record {
  run_id = identity.run_id;
  revision = 1;
  from_state = contract_bound;
  to_state = workspace_prepared;
  occurred_at = later;
  actor = builder;
  final_state = none;
}

abbrev pub second_checkpoint : RunCheckpoint
second_checkpoint = record {
  identity = identity;
  lifecycle = record {
    run_id = identity.run_id;
    state = workspace_prepared;
    revision = 1;
    updated_at = later;
    final_state = none;
  };
}

-- The revision tells the two checkpoints apart.
abbrev pub checkpoint_bytes : RunCheckpoint → Bytes
checkpoint_bytes c = c.lifecycle.revision ∷ []

abbrev pub checkpoint_of : Bytes → RunCheckpoint
checkpoint_of (zero ∷ []) = first_checkpoint
checkpoint_of _ = second_checkpoint

abbrev pub Known : RunCheckpoint → Type 0
Known c = (c ≡ first_checkpoint) ⊎ (c ≡ second_checkpoint)

checkpoint_of-bytes : (c : RunCheckpoint) → Known c → checkpoint_of (checkpoint_bytes c) ≡ c
checkpoint_of-bytes c (inl p) = subst (λ x. checkpoint_of (checkpoint_bytes x) ≡ x) (sym p) refl
checkpoint_of-bytes c (inr p) = subst (λ x. checkpoint_of (checkpoint_bytes x) ≡ x) (sym p) refl

pub read_back :
    (c : RunCheckpoint) (b : Bytes)
    → Known c
    → (let r : Result Bytes = ok (checkpoint_bytes c) in r) ≡ ok b
    → (let r : Result RunCheckpoint = ok (checkpoint_of b) in r) ≡ ok c
read_back c b k h =
    let same : checkpoint_bytes c ≡ b = ground arith in
    ap ok (ap checkpoint_of (sym same) ∙ checkpoint_of-bytes c k)

instance abbrev pub sample_codec : StateCodec
sample_codec = record {
  serialize_run_identity = λ _. ok (3 ∷ []);
  deserialize_run_identity = λ _. ok identity;
  serialize_checkpoint = λ c. ok (checkpoint_bytes c);
  deserialize_checkpoint = λ b. ok (checkpoint_of b);
  serialize_transition = λ _. ok (4 ∷ []);
  deserialize_transition = λ _. ok prepared_event;
  IdentityFits = λ x. x ≡ identity;
  CheckpointFits = Known;
  TransitionFits = λ x. x ≡ prepared_event;
  identity_round_trip = λ x b fits h. ap ok (sym fits);
  checkpoint_round_trip = read_back;
  transition_round_trip = λ x b fits h. ap ok (sym fits);
}

-- A command that the policy's only rule covers.
abbrev pub limits : CommandLimits
limits = record {
  timeout_ms = 1000;
  termination_grace_ms = 100;
  stdout_max_bytes = 4096;
  stderr_max_bytes = 4096;
}

abbrev pub request : CommandRequest
request = record {
  run_identity = identity;
  workspace = record {
    workspace_id = record { value = text "workspace-1" };
    run_id = identity.run_id;
    baseline_sha = identity.baseline_sha;
  };
  action = record { value = text "test" };
  executable = record { value = text "python" };
  arguments = text "-V" ∷ [];
  working_directory = record { value = text "." };
  environment = record { name = text "LANG"; value = text "C" } ∷ [];
  network_policy = deny_all;
  limits = limits;
}

abbrev pub rule : CommandRule
rule = record {
  action = request.action;
  executable = request.executable;
  arguments = request.arguments;
  working_directory = request.working_directory;
  environment_names = text "HOME" ∷ text "LANG" ∷ [];
  network_policy = deny_all;
  max_limits = record limits { timeout_ms = 5000 };
}

abbrev pub policy : CommandPolicy
policy = record {
  policy_hash = identity.policy_hash;
  actions = record { allowed = text "test" ∷ []; denied = text "deploy" ∷ [] };
  rules = rule ∷ [];
}

-- A contract language of one document.
abbrev pub contract : Text × Text
contract = (text "contract", text "1")

unfoldable pub sample_contract-discrete : Discrete (Text × Text)
unfolding ℕ_discrete
sample_contract-discrete = hlevel ℕ_discrete

instance abbrev pub sample_tools : ContractTools
sample_tools = record {
  Contract = Text × Text;
  contract_eq = record { dec = sample_contract-discrete };
  id = λ c. c.0;
  version = λ c. c.1;
  decode = λ b. some b;
  loads = λ _. some (object no_members);
  validate = λ _. some [];
  from_dict = λ _. some contract;
  sha256 = λ _. hash;
}

abbrev pub bound : BoundContract
bound = record {
  contract = contract;
  contract_hash = identity.contract_hash;
  source_bytes = text "{}";
}
