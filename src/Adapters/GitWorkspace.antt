-- ===== src/Adapters/GitWorkspace.antt =====
-- src/alicerce/adapters/local/git_workspace.py: `LocalGitWorkspace`. Its state is the two dicts; the
-- lock makes every operation one step. The file system and the git command line are the host.
pub mod Checks
pub mod Indexed
pub mod Reaches
pub mod Contained
pub mod Validates
pub mod Releases
pub mod Prepares
use alicerce.Prelude.{
  Bool, true, false, not, ◌&&◌, ◌||◌, Option, none, some, List, [], ◌∷◌, ◌++◌, ◌==◌, Text, text,
  lookup, pop, put, Dict, Bytes, nat_eq, list_eq, if◌then◌else◌,
}
use alicerce.Errors.{
  Exn, Result, ok, err, raise_if, or_raise, os_error, git_error, workspace_error,
  WorkspaceErrorCause,
}
use alicerce.Domain.RunIdentity.{RunId, RunIdentity, run_id_eq}
use alicerce.Domain.Lifecycle.{is_none}
use alicerce.Domain.Workspace.{
  WorkspaceId, WorkspaceIdentity, CandidateIdentity, workspace_id_eq, workspace_identity_eq,
  bind_candidate,
}
use alicerce.Adapters.FileSystem.{HostPath, join_path}
use alicerce.Adapters.Host.{either, Action, ◌>>=◌, ◌>>◌, lift, rethrow}
use Checks.{
  WorkspaceHost, Config, WorkspaceRecord, assert_root_integrity, path_for, is_protected,
  validate_record, validate_symlinks, config_digest, discard_unpublished, translate_git_error,
  suppressed, storage_of_os, isolation, storage,
}

-- `_records` and `_run_index`
pub record Books : Type 0 where
  pub records : Dict WorkspaceId WorkspaceRecord
  pub run_index : Dict RunId WorkspaceId

abbrev pub no_books : Books
no_books = record { records = []; run_index = [] }

-- `_records[id] = record` and `_run_index[run] = id`
unfoldable pub publish : WorkspaceRecord → Books → Books
publish record_ books = record {
  records = put record_.identity.workspace_id record_ books.records;
  run_index = put record_.identity.run_id record_.identity.workspace_id books.run_index;
}

-- `_forget`
unfoldable pub forget : WorkspaceRecord → Books → Books
forget record_ books = record {
  records = pop record_.identity.workspace_id books.records;
  run_index = pop record_.identity.run_id books.run_index;
}

-- `_require_record`
unfoldable pub require_record : WorkspaceIdentity → Books → Result WorkspaceRecord
require_record workspace books = elim (lookup workspace.workspace_id books.records) [
  | none ↦ err (workspace_error WorkspaceErrorCause.not_found)
  | some record_ ↦
      if record_.identity == workspace
      then ok record_
      else err (workspace_error WorkspaceErrorCause.conflict)
]

-- How a release ends, if not with an exception that keeps the record: the record is forgotten, and
-- an exception may still follow.
pub data Ending : Type 0 where
  forgotten : Ending
  forgotten_with : Exn → Ending

module _ ⦃host : WorkspaceHost⦄ (config : Config) where
  abbrev pub Act : Type 0 → Type 0
  Act A = Action host.World A

  -- What the three `except` clauses of `prepare` do with an exception.
  unfoldable pub on_failure : {A : Type 0} → HostPath → Result A → Act A
  on_failure destination (err (git_error cause)) = do
    discard_unpublished config destination
    lift (err (translate_git_error (git_error cause)))
  on_failure destination (err (workspace_error cause)) = do
    discard_unpublished config destination
    lift (err (workspace_error cause))
  on_failure destination (err os_error) = do
    discard_unpublished config destination
    lift (err storage)
  on_failure destination result = lift result

  -- The `try` statement of `prepare`.
  unfoldable pub materialize : HostPath → RunIdentity → Act Bytes
  unfolding on_failure
  materialize destination identity world =
      let (result, after) =
        (do
          host.materialize_baseline config.source destination identity.baseline_sha
          validate_symlinks destination
          digest ← config_digest destination
          host.verify_baseline destination identity.baseline_sha
          lift (ok digest))
          world in
      on_failure destination result after

  -- `prepare` up to the record that it publishes.
  unfoldable pub prepare_record : Books → RunIdentity → Act WorkspaceRecord
  unfolding materialize
  prepare_record books identity = do
    assert_root_integrity config
    lift (
        raise_if (not (is_none (lookup identity.run_id books.run_index)))
          (workspace_error WorkspaceErrorCause.already_exists))
    workspace_id ← host.new_workspace_id
    destination ← lift (path_for config workspace_id)
    taken ←
        either (not (is_none (lookup workspace_id books.records)))
          (do there ← host.exists destination; either there (host.is_symlink destination))
    lift (raise_if taken (workspace_error WorkspaceErrorCause.already_exists))
    digest ← materialize destination identity
    lift (
        ok (record {
          identity = record {
            workspace_id = workspace_id;
            run_id = identity.run_id;
            baseline_sha = identity.baseline_sha;
          };
          path = destination;
          config_digest = digest;
        }))

  -- The whole state of one adapter on its host.
  abbrev pub State : Type 0
  State = Books × host.World

  abbrev pub published :
      Books → Result WorkspaceRecord × host.World → Result WorkspaceIdentity × State
  published books (ok record_, world) = (ok record_.identity, (publish record_ books, world))
  published books (err e, world) = (err e, (books, world))

  unfoldable pub prepare : RunIdentity → Action State WorkspaceIdentity
  unfolding prepare_record
  prepare identity (books, world) = published books (prepare_record books identity world)

  -- An operation that only reads the two dicts.
  abbrev pub reading : {A : Type 0} → (Books → Act A) → Action State A
  reading body (books, world) = let (result, after) = body books world in (result, (books, after))

  unfoldable pub load_record : WorkspaceId → Books → Act (Option WorkspaceIdentity)
  load_record workspace_id books = elim (lookup workspace_id books.records) [
    | none ↦ lift (ok none)
    | some record_ ↦ do validate_record config record_; lift (ok (some record_.identity))
  ]

  unfoldable pub load : WorkspaceId → Action State (Option WorkspaceIdentity)
  unfolding load_record
  load workspace_id = reading (load_record workspace_id)

  unfoldable pub snapshot_record : WorkspaceIdentity → Books → Act CandidateIdentity
  unfolding require_record
  snapshot_record workspace books = do
    record_ ← lift (require_record workspace books)
    validate_record config record_
    candidate_sha ← rethrow translate_git_error (do
      sha ← host.snapshot_candidate record_.path
      validate_record config record_
      lift (ok sha))
    lift (ok (bind_candidate record_.identity candidate_sha))

  unfoldable pub snapshot : WorkspaceIdentity → Action State CandidateIdentity
  unfolding snapshot_record
  snapshot workspace = reading (snapshot_record workspace)

  -- The two ends of `execution_lease`; the second validates the record that the first has found.
  unfoldable pub enter_lease : WorkspaceIdentity → Books → Act HostPath
  unfolding require_record
  enter_lease workspace books = do
    record_ ← lift (require_record workspace books)
    validate_record config record_
    lift (ok record_.path)

  unfoldable pub exit_lease : WorkspaceRecord → Act (Unit {0})
  exit_lease record_ = validate_record config record_

  -- The recovery of a release that was interrupted after its rename.
  unfoldable pub recover : HostPath → Act Ending
  recover quarantine = do
    there ← host.exists quarantine
    occupied ← either there (host.is_symlink quarantine)
    if occupied
        then rethrow storage_of_os (do
          link ← host.is_symlink quarantine
          single ← either link (do directory ← host.is_dir quarantine; lift (ok (not directory)))
          (if single then host.unlink quarantine else host.rmtree quarantine)
          lift (ok forgotten))
        else lift (ok forgotten)

  -- The removal: the workspace is renamed first, and looked at under its new name.
  unfoldable pub remove_renamed : HostPath → HostPath → Act Ending
  remove_renamed path quarantine = do
    host.rename path quarantine
    link ← host.is_symlink quarantine
    if link then (do host.unlink quarantine; lift (ok (forgotten_with isolation))) else (do
      directory ← host.is_dir quarantine
      if not directory
          then (do host.unlink quarantine; lift (ok (forgotten_with isolation)))
          else (do host.rmtree quarantine; lift (ok forgotten)))

  -- `except OSError`: the rename is undone where that is possible.
  unfoldable pub undo_rename : HostPath → HostPath → Result Ending → Act Ending
  undo_rename path quarantine (err os_error) = do
    there ← host.exists quarantine
    gone ←
        if there then (do present ← host.exists path; lift (ok (not present))) else lift (ok false)
    (if gone then (λ world. suppressed (host.rename quarantine path world)) else lift (ok tt))
    lift (err storage)
  undo_rename path quarantine result = lift result

  -- `release` of a record that it found under the workspace's identity.
  unfoldable pub release_record : WorkspaceRecord → Act Ending
  unfolding recover remove_renamed undo_rename
  release_record record_ = do
    assert_root_integrity config
    expected ← lift (path_for config record_.identity.workspace_id)
    lift (raise_if (not (record_.path == expected) || is_protected config record_.path) isolation)
    let quarantine = join_path config.root (text ".release-" ++ record_.identity.workspace_id.value)
    there ← host.exists record_.path
    present ← either there (host.is_symlink record_.path)
    if not present then recover quarantine else (do
      taken ← host.exists quarantine
      occupied ← either taken (host.is_symlink quarantine)
      lift (raise_if occupied storage)
      λ world.
          let (result, after) = remove_renamed record_.path quarantine world in
          undo_rename record_.path quarantine result after)

  abbrev pub ended :
      WorkspaceRecord → Books → Result Ending × host.World → Result (Unit {0}) × State
  ended record_ books (ok forgotten, world) = (ok tt, (forget record_ books, world))
  ended record_ books (ok (forgotten_with e), world) = (err e, (forget record_ books, world))
  ended record_ books (err e, world) = (err e, (books, world))

  unfoldable pub release : WorkspaceIdentity → Action State (Unit {0})
  unfolding release_record
  release workspace (books, world) = elim (lookup workspace.workspace_id books.records) [
    | none ↦ (ok tt, (books, world))
    | some record_ ↦
        if record_.identity == workspace
        then ended record_ books (release_record record_ world)
        else (err (workspace_error WorkspaceErrorCause.conflict), (books, world))
  ]
