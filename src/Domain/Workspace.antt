-- ===== src/Domain/Workspace.antt =====
-- src/alicerce/domain/workspace.py: the capability handle of a workspace and what it binds.
use alicerce.Prelude.{not, Bool, ℕ_discrete, Eq, Text}
use alicerce.Errors.{Result, ok, ◌>>=◌, ◌>>◌, raise_if, value_error}
use alicerce.Domain.Patterns.{run_id_pattern, object_sha_pattern}
use alicerce.Domain.RunIdentity.{RunId, BaselineSha}

-- `_require_pattern` of this module: no test of surrounding whitespace.
unfoldable pub require_format : (Text → Bool) → Text → Result Text
require_format pattern value = do raise_if (not (pattern value)) value_error; ok value

pub record WorkspaceId : Type 0 where
  pub value : Text

-- `_WORKSPACE_ID_PATTERN` is the pattern of run identifiers.
unfoldable pub new_workspace_id : Text → Result WorkspaceId
unfolding require_format
new_workspace_id t = do value ← require_format run_id_pattern t; ok (record { value = value })

pub record CandidateSha : Type 0 where
  pub value : Text

unfoldable pub new_candidate_sha : Text → Result CandidateSha
unfolding require_format
new_candidate_sha t = do value ← require_format object_sha_pattern t; ok (record { value = value })

pub record WorkspaceIdentity : Type 0 where
  pub workspace_id : WorkspaceId
  pub run_id : RunId
  pub baseline_sha : BaselineSha

pub record CandidateIdentity : Type 0 where
  pub workspace : WorkspaceIdentity
  pub candidate_sha : CandidateSha

unfoldable pub bind_candidate : WorkspaceIdentity → CandidateSha → CandidateIdentity
bind_candidate workspace candidate_sha = record {
  workspace = workspace;
  candidate_sha = candidate_sha;
}

unfoldable pub WorkspaceIdentity-discrete : Discrete WorkspaceIdentity
unfolding ℕ_discrete
WorkspaceIdentity-discrete = hlevel ℕ_discrete

instance abbrev pub workspace_identity_eq : Eq WorkspaceIdentity
workspace_identity_eq = record { dec = WorkspaceIdentity-discrete }

unfoldable pub WorkspaceId-discrete : Discrete WorkspaceId
unfolding ℕ_discrete
WorkspaceId-discrete = hlevel ℕ_discrete

instance abbrev pub workspace_id_eq : Eq WorkspaceId
workspace_id_eq = record { dec = WorkspaceId-discrete }
