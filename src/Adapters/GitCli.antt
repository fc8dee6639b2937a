-- ===== src/Adapters/GitCli.antt =====
-- src/alicerce/adapters/local/git_cli.py: `ControlledGitCli`.
pub mod Run
pub mod Fuel
pub mod Turns
pub mod Ends
pub mod Repository
pub mod Verifies
use alicerce.Prelude.{
  ℕ, Bool, true, false, not, ◌||◌, Option, none, some, List, [], ◌∷◌, ◌++◌, ◌==◌, elem, Text, text,
  nat_eq, list_eq, if◌then◌else◌,
}
use alicerce.Errors.{
  Exn, Result, ok, err, raise_if, os_error, git_error, GitCliErrorCause, is_type_or_value_error,
}
use alicerce.Domain.Patterns.{strip}
use alicerce.Domain.RunIdentity.{BaselineSha}
use alicerce.Domain.Workspace.{CandidateSha, new_candidate_sha}
use alicerce.Adapters.FileSystem.{HostPath, join_path, parent, is_relative_to}
use alicerce.Adapters.Host.{Action, ◌>>=◌, ◌>>◌, lift, rethrow, either}
use alicerce.Adapters.LinuxSandbox.Bubblewrap.{path_text}
use Run.{GitHost, GitCli, command_failed, failed_of_os, invalid_of_os, run}

pub record MaterializedBaseline : Type 0 where
  pub repository : HostPath
  pub baseline_sha : BaselineSha

abbrev pub mismatch : Exn
mismatch = git_error GitCliErrorCause.baseline_mismatch

abbrev pub invalid_path : Exn
invalid_path = git_error GitCliErrorCause.invalid_path

-- `except OSError` with INVALID_CONFIGURATION
unfoldable pub unconfigured_of_os : Exn → Exn
unconfigured_of_os os_error = git_error GitCliErrorCause.invalid_configuration
unconfigured_of_os e = e

-- `except OSError` and `except (TypeError, ValueError)` of `snapshot_candidate`
unfoldable pub snapshot_failed : Exn → Exn
unfolding failed_of_os is_type_or_value_error
snapshot_failed e = if is_type_or_value_error e then command_failed else failed_of_os e

-- `path.name`
unfoldable pub name_of : HostPath → Text
name_of [] = []
name_of (part ∷ []) = part
name_of (part ∷ next ∷ rest) = name_of (next ∷ rest)

-- `_environment`
unfoldable pub environment_of : HostPath → HostPath → HostPath → List (Text × Text)
unfolding path_text
environment_of home config hooks =
    (text "GIT_ALLOW_PROTOCOL", text "file")
    ∷ (text "GIT_ASKPASS", [])
    ∷ (text "GIT_CONFIG_COUNT", text "1")
    ∷ (text "GIT_CONFIG_KEY_0", text "core.hooksPath")
    ∷ (text "GIT_CONFIG_NOSYSTEM", text "1")
    ∷ (text "GIT_CONFIG_VALUE_0", path_text hooks)
    ∷ (text "GIT_TERMINAL_PROMPT", text "0")
    ∷ (text "HOME", path_text home)
    ∷ (text "LANG", text "C.UTF-8")
    ∷ (text "LC_ALL", text "C.UTF-8")
    ∷ (text "XDG_CONFIG_HOME", path_text config)
    ∷ []

module _ ⦃host : GitHost⦄ where
  abbrev pub Act : Type 0 → Type 0
  Act A = Action host.World A

  -- `ControlledGitCli.__init__`, of an absolute path and limits that are positive
  unfoldable pub new_git_cli : HostPath → ℕ → ℕ → Act GitCli
  unfolding unconfigured_of_os
  new_git_cli executable timeout_ns max_output_bytes = do
    resolved ← rethrow unconfigured_of_os (host.resolve executable)
    file ← host.is_file resolved
    unfit ← either (not file) (do runs ← host.is_executable resolved; lift (ok (not runs)))
    lift (raise_if unfit (git_error GitCliErrorCause.invalid_configuration))
    lift (
        ok (record {
          executable = resolved;
          timeout_ns = timeout_ns;
          max_output_bytes = max_output_bytes;
        }))

  -- `_validate_paths`, of absolute paths
  unfoldable pub validate_paths : HostPath → HostPath → Act (HostPath × HostPath)
  unfolding invalid_of_os name_of
  validate_paths source destination = do
    trusted_source ← rethrow invalid_of_os (host.resolve source)
    trusted_parent ← rethrow invalid_of_os (host.resolve (parent destination))
    let trusted_destination = join_path trusted_parent (name_of destination)
    directory ← host.is_dir trusted_source
    lift (raise_if (not directory) invalid_path)
    lift (raise_if (elem (name_of destination) ([] ∷ text "." ∷ text ".." ∷ [])) invalid_path)
    there ← host.exists trusted_destination
    taken ← either there (host.is_symlink trusted_destination)
    lift (raise_if taken (git_error GitCliErrorCause.destination_exists))
    lift (raise_if (is_relative_to trusted_destination trusted_source) invalid_path)
    lift (ok (trusted_source, trusted_destination))

  -- `_validate_repository`, of an absolute path
  unfoldable pub validate_repository : HostPath → Act HostPath
  unfolding invalid_of_os
  validate_repository repository = do
    trusted ← rethrow invalid_of_os (host.resolve repository)
    let git_directory = trusted ++ text ".git" ∷ []
    directory ← host.is_dir trusted
    unfit ← either (not directory) (do
      metadata ← host.is_dir git_directory
      either (not metadata) (host.is_symlink git_directory))
    lift (raise_if unfit invalid_path)
    lift (ok trusted)

  -- `with tempfile.TemporaryDirectory(…) as control_directory: …`
  unfoldable pub with_control : {A : Type 0} → Text → HostPath → (HostPath → Act A) → Act A
  with_control prefix directory body = do
    control ← host.make_temporary prefix directory
    λ world.
        let (result, after) = body control world in
        (do host.remove_temporary control; lift result) after

  -- The three directories below it, and the environment that names them.
  unfoldable pub prepare_control : HostPath → Act (List (Text × Text))
  unfolding environment_of
  prepare_control control = do
    let hooks = control ++ text "hooks" ∷ []
    let home = control ++ text "home" ∷ []
    let config = control ++ text "config" ∷ []
    host.mkdir hooks
    host.mkdir home
    host.mkdir config
    lift (ok (environment_of home config hooks))

  -- The four commands of `materialize_baseline`.
  unfoldable pub checkout_baseline :
      GitCli → HostPath → HostPath → BaselineSha → HostPath → Act (Unit {0})
  unfolding prepare_control run
  checkout_baseline git source destination baseline_sha control = do
    environment ← prepare_control control
    let directory = parent destination
    let here = text "-C" ∷ path_text destination ∷ []
    run git
        (text "clone"
          ∷ text "--no-local"
          ∷ text "--no-hardlinks"
          ∷ text "--no-checkout"
          ∷ text "--no-tags"
          ∷ path_text source
          ∷ path_text destination
          ∷ [])
        directory environment
    run git
        (here
          ++ text "checkout"
            ∷ text "--detach"
            ∷ text "--force"
            ∷ baseline_sha.value
            ∷ text "--"
            ∷ [])
        directory environment
    head ←
        run git (here ++ text "rev-parse" ∷ text "--verify" ∷ text "HEAD^{commit}" ∷ []) directory
          environment
    lift (raise_if (not (strip head == baseline_sha.value)) mismatch)
    run git (here ++ text "remote" ∷ text "remove" ∷ text "origin" ∷ []) directory environment
    lift (ok tt)

  -- `_discard_partial`
  unfoldable pub discard_partial : HostPath → Act (Unit {0})
  discard_partial destination = do
    there ← host.exists destination
    directory ← if there then host.is_dir destination else lift (ok false)
    link ← if directory then host.is_symlink destination else lift (ok true)
    if link then lift (ok tt) else host.rmtree destination

  -- The two `except` clauses of `materialize_baseline`.
  unfoldable pub discarding : {A : Type 0} → HostPath → Result A → Act A
  unfolding discard_partial
  discarding destination (err (git_error cause)) = do
    discard_partial destination
    lift (err (git_error cause))
  discarding destination (err os_error) = do discard_partial destination; lift (err command_failed)
  discarding destination result = lift result

  unfoldable pub materialize_baseline :
      GitCli → HostPath → HostPath → BaselineSha → Act MaterializedBaseline
  unfolding validate_paths with_control checkout_baseline discarding
  materialize_baseline git source destination baseline_sha = do
    (trusted_source, trusted_destination) ← validate_paths source destination
    λ world.
        let (result, after) =
          with_control (text ".alicerce-git-control-") (parent trusted_destination)
            (checkout_baseline git trusted_source trusted_destination baseline_sha) world in
        (do
          discarding trusted_destination result
          lift (ok (record { repository = trusted_destination; baseline_sha = baseline_sha })))
          after

  -- The two commands of `verify_baseline`: the commit of HEAD, and the remotes.
  unfoldable pub read_repository : GitCli → HostPath → HostPath → Act (Text × Text)
  unfolding prepare_control run
  read_repository git repository control = do
    environment ← prepare_control control
    let here = text "-C" ∷ path_text repository ∷ []
    head ←
        run git (here ++ text "rev-parse" ∷ text "--verify" ∷ text "HEAD^{commit}" ∷ [])
          (parent repository) environment
    remotes ← run git (here ++ text "remote" ∷ []) (parent repository) environment
    lift (ok (strip head, strip remotes))

  unfoldable pub verify_baseline : GitCli → HostPath → BaselineSha → Act MaterializedBaseline
  unfolding validate_repository with_control read_repository failed_of_os
  verify_baseline git repository baseline_sha = do
    trusted ← validate_repository repository
    found ← rethrow failed_of_os (
        with_control (text ".alicerce-git-control-") (parent trusted) (read_repository git trusted))
    lift (raise_if (not (found.0 == baseline_sha.value)) mismatch)
    lift (raise_if (not (found.1 == [])) mismatch)
    lift (ok (record { repository = trusted; baseline_sha = baseline_sha }))

  -- The three commands of `snapshot_candidate`.
  unfoldable pub write_tree : GitCli → HostPath → HostPath → Act Text
  unfolding prepare_control run
  write_tree git repository control = do
    prepared ← prepare_control control
    let index = path_text (control ++ text "candidate.index" ∷ [])
    let environment = prepared ++ (text "GIT_INDEX_FILE", index) ∷ []
    let here = text "-C" ∷ path_text repository ∷ []
    run git (here ++ text "read-tree" ∷ text "HEAD" ∷ []) (parent repository) environment
    run git (here ++ text "add" ∷ text "-A" ∷ text "--" ∷ text "." ∷ []) (parent repository)
        environment
    tree ← run git (here ++ text "write-tree" ∷ []) (parent repository) environment
    lift (ok (strip tree))

  unfoldable pub snapshot_candidate : GitCli → HostPath → Act CandidateSha
  unfolding validate_repository with_control write_tree snapshot_failed
  snapshot_candidate git repository = do
    trusted ← validate_repository repository
    rethrow snapshot_failed (do
      tree_sha ←
          with_control (text ".alicerce-git-snapshot-") (parent trusted) (write_tree git trusted)
      lift (new_candidate_sha tree_sha))
