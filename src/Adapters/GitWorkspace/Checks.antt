-- ===== src/Adapters/GitWorkspace/Checks.antt =====
-- The integrity checks of `LocalGitWorkspace`: its root, its paths, the symbolic links of a
-- workspace and its git configuration.
use alicerce.Prelude.{
  ℕ, zero, suc, Bool, false, not, ◌||◌, List, [], ◌∷◌, ◌++◌, ◌==◌, select, Text, Bytes, text,
  nat_eq, list_eq, if◌then◌else◌,
}
use alicerce.Errors.{
  Exn, Result, ok, err, raise_if, os_error, runtime_error, git_error, workspace_error, value_error,
  WorkspaceErrorCause, GitCliErrorCause,
}
use alicerce.Domain.RunIdentity.{BaselineSha}
use alicerce.Domain.Workspace.{WorkspaceId, WorkspaceIdentity, CandidateSha}
use alicerce.Adapters.FileSystem.{HostPath, join_path, parent, is_relative_to, overlaps}
use alicerce.Adapters.Host.{Action, ◌>>=◌, ◌>>◌, lift, rethrow, either}

-- What the adapter asks of the file system, of `ControlledGitCli` and of the generator of
-- identifiers.
pub record WorkspaceHost : Type 1 where
  pub World : Type 0
  pub exists : HostPath → Action World Bool
  pub is_symlink : HostPath → Action World Bool
  pub is_dir : HostPath → Action World Bool
  pub is_file : HostPath → Action World Bool
  -- `path.resolve(strict=True)`
  pub resolve : HostPath → Action World HostPath
  -- the names of the directories and of the other entries, as `os.walk` lists them
  pub scan : HostPath → Action World (List Text × List Text)
  pub read_bytes : HostPath → Action World Bytes
  pub sha256 : Bytes → Bytes
  pub unlink : HostPath → Action World (Unit {0})
  pub rmtree : HostPath → Action World (Unit {0})
  pub rename : HostPath → HostPath → Action World (Unit {0})
  pub materialize_baseline : HostPath → HostPath → BaselineSha → Action World (Unit {0})
  pub verify_baseline : HostPath → BaselineSha → Action World (Unit {0})
  pub snapshot_candidate : HostPath → Action World CandidateSha
  pub new_workspace_id : Action World WorkspaceId

pub record Config : Type 0 where
  pub source : HostPath
  pub root : HostPath
  -- the source first
  pub protected : List HostPath

-- `_WorkspaceRecord`
pub record WorkspaceRecord : Type 0 where
  pub identity : WorkspaceIdentity
  pub path : HostPath
  pub config_digest : Bytes

abbrev pub isolation : Exn
isolation = workspace_error WorkspaceErrorCause.isolation_failure

abbrev pub storage : Exn
storage = workspace_error WorkspaceErrorCause.storage_failure

-- `except OSError` with STORAGE_FAILURE
unfoldable pub storage_of_os : Exn → Exn
storage_of_os os_error = storage
storage_of_os e = e

-- `except (OSError, RuntimeError)`
unfoldable pub isolation_of_os : Exn → Exn
isolation_of_os os_error = isolation
isolation_of_os runtime_error = isolation
isolation_of_os e = e

-- `except OSError` with ValueError
unfoldable pub value_of_os : Exn → Exn
value_of_os os_error = value_error
value_of_os e = e

-- `_translate_git_error`, under `except GitCliError`
unfoldable pub translate_git_error : Exn → Exn
translate_git_error (git_error GitCliErrorCause.invalid_configuration) = isolation
translate_git_error (git_error GitCliErrorCause.invalid_path) = isolation
translate_git_error (git_error GitCliErrorCause.destination_exists) = isolation
translate_git_error (git_error GitCliErrorCause.baseline_mismatch) = isolation
translate_git_error (git_error _) = storage
translate_git_error e = e

-- `_path_for`
unfoldable pub path_for : Config → WorkspaceId → Result HostPath
path_for config workspace_id =
    let path = join_path config.root workspace_id.value in
    if parent path == config.root then ok path else err isolation

unfoldable pub overlaps_any : HostPath → List HostPath → Bool
overlaps_any path [] = false
overlaps_any path (other ∷ rest) = overlaps path other || overlaps_any path rest

-- `_is_protected`
unfoldable pub is_protected : Config → HostPath → Bool
unfolding overlaps_any
is_protected config path = overlaps_any path config.protected

-- `list.remove`
unfoldable pub remove : Text → List Text → List Text
remove name [] = []
remove name (x ∷ xs) = let rest = remove name xs in if x == name then xs else x ∷ rest

-- No path of the host has more parts: one of 4096 bytes has at most 2048.
abbrev pub max_depth : ℕ
max_depth = 2048

module _ ⦃host : WorkspaceHost⦄ where
  abbrev Act : Type 0 → Type 0
  Act A = Action host.World A

  -- `_resolve_directory`, of an absolute path
  unfoldable pub resolve_directory : HostPath → Act HostPath
  unfolding value_of_os
  resolve_directory path = do
    link ← host.is_symlink path
    lift (raise_if link value_error)
    resolved ← rethrow value_of_os (host.resolve path)
    directory ← host.is_dir resolved
    lift (raise_if (not directory) value_error)
    lift (ok resolved)

  unfoldable pub resolve_directories : List HostPath → Act (List HostPath)
  unfolding resolve_directory
  resolve_directories [] = lift (ok [])
  resolve_directories (path ∷ paths) = do
    resolved ← resolve_directory path
    rest ← resolve_directories paths
    lift (ok (resolved ∷ rest))

  -- `LocalGitWorkspace.__init__`
  unfoldable pub new_local_git_workspace : HostPath → HostPath → List HostPath → Act Config
  unfolding resolve_directory resolve_directories overlaps_any
  new_local_git_workspace source_repository workspace_root protected_roots = do
    source ← resolve_directory source_repository
    root ← resolve_directory workspace_root
    protected ← resolve_directories protected_roots
    lift (raise_if (overlaps_any root (source ∷ protected)) value_error)
    lift (ok (record { source = source; root = root; protected = source ∷ protected }))

  -- `_assert_root_integrity`
  unfoldable pub assert_root_integrity : Config → Act (Unit {0})
  unfolding storage_of_os
  assert_root_integrity config = do
    resolved ← rethrow storage_of_os (host.resolve config.root)
    link ← host.is_symlink config.root
    broken ← either link (do directory ← host.is_dir config.root; lift (ok (not directory)))
    lift (raise_if (broken || not (resolved == config.root)) isolation)

  -- The loop over the names of one directory; it returns those to descend into.
  unfoldable pub check_names : HostPath → HostPath → List Text → List Text → Act (List Text)
  unfolding isolation_of_os remove
  check_names workspace current [] directories = lift (ok directories)
  check_names workspace current (name ∷ names) directories = do
    let path = current ++ name ∷ []
    link ← host.is_symlink path
    if link
        then (do
          target ← rethrow isolation_of_os (host.resolve path)
          lift (raise_if (not (is_relative_to target workspace)) isolation)
          check_names workspace current names (remove name directories))
        else check_names workspace current names directories

  -- `os.walk` passes by the directories that are links by now.
  unfoldable pub without_links : HostPath → List Text → Act (List HostPath)
  without_links current [] = lift (ok [])
  without_links current (name ∷ names) = do
    link ← host.is_symlink (current ++ name ∷ [])
    rest ← without_links current names
    lift (ok (if link then rest else (current ++ name ∷ []) ∷ rest))

  unfoldable pub visit_all : (HostPath → Act (Unit {0})) → List HostPath → Act (Unit {0})
  visit_all visit [] = lift (ok tt)
  visit_all visit (path ∷ paths) = do visit path; visit_all visit paths

  -- One step of `os.walk` with the body of the loop; a path that is too long cannot be listed.
  unfoldable pub walk : ℕ → HostPath → HostPath → Act (Unit {0})
  unfolding check_names without_links visit_all storage_of_os
  walk zero workspace current = lift (err storage)
  walk (suc depth) workspace current = do
    (listed, filenames) ← rethrow storage_of_os (host.scan current)
    let directories =
        if current == workspace then select (λ name. not (name == text ".git")) listed else listed
    kept ← check_names workspace current (directories ++ filenames) directories
    below ← without_links current kept
    visit_all (walk depth workspace) below

  -- `_validate_symlinks`
  unfoldable pub validate_symlinks : HostPath → Act (Unit {0})
  unfolding walk
  validate_symlinks workspace = walk max_depth workspace workspace

  -- `_config_digest`
  unfoldable pub config_digest : HostPath → Act Bytes
  unfolding storage_of_os
  config_digest workspace = do
    let config = workspace ++ text ".git" ∷ text "config" ∷ []
    link ← host.is_symlink config
    missing ← either link (do file ← host.is_file config; lift (ok (not file)))
    lift (raise_if missing isolation)
    content ← rethrow storage_of_os (host.read_bytes config)
    lift (ok (host.sha256 content))

  -- `_validate_record`
  unfoldable pub validate_record : Config → WorkspaceRecord → Act (Unit {0})
  unfolding assert_root_integrity path_for is_protected config_digest translate_git_error
  validate_record config record_ = do
    assert_root_integrity config
    expected ← lift (path_for config record_.identity.workspace_id)
    lift (raise_if (not (record_.path == expected)) isolation)
    link ← host.is_symlink record_.path
    broken ← either link (do directory ← host.is_dir record_.path; lift (ok (not directory)))
    lift (raise_if (broken || is_protected config record_.path) isolation)
    validate_symlinks record_.path
    digest ← config_digest record_.path
    lift (raise_if (not (digest == record_.config_digest)) isolation)
    rethrow translate_git_error (host.verify_baseline record_.path record_.identity.baseline_sha)

  -- `except OSError: pass`
  abbrev pub suppressed : Result (Unit {0}) × host.World → Result (Unit {0}) × host.World
  suppressed (err os_error, world) = (ok tt, world)
  suppressed out = out

  -- `path.exists() and not path.is_dir()`
  unfoldable pub is_no_directory : HostPath → Act Bool
  is_no_directory path = do
    there ← host.exists path
    if there then (do directory ← host.is_dir path; lift (ok (not directory))) else lift (ok false)

  -- `_discard_unpublished`
  unfoldable pub discard_unpublished : Config → HostPath → Act (Unit {0})
  unfolding is_protected is_no_directory
  discard_unpublished config path world =
      if not (parent path == config.root) || is_protected config path
      then (ok tt, world)
      else suppressed (
          (do
            link ← host.is_symlink path
            single ← either link (is_no_directory path)
            if single then host.unlink path else (do
              directory ← host.is_dir path
              if directory then host.rmtree path else lift (ok tt)))
            world)
