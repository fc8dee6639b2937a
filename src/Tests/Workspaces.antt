-- ===== src/Tests/Workspaces.antt =====
-- The workspaces on a host that answers always in the same way, and counts.
use mathlib.Core.Path.{subst}
use alicerce.Prelude.{
  ℕ, suc, ltb, ◌≡◌, refl, Bool, ◌&&◌, true, false, some, List, [], ◌∷◌, ◌==◌, Text, text, lookup,
  put, pop, list_eq, nat_eq, list-discrete, ℕ_discrete,
}
use alicerce.Errors.{Result, ok}
use alicerce.Domain.RunIdentity.{RunId-discrete}
use alicerce.Domain.Paths.{parts, split, is_part, is_absolute}
use alicerce.Domain.Workspace.{
  WorkspaceIdentity, CandidateIdentity, CandidateSha, workspace_id_eq, WorkspaceId-discrete,
  WorkspaceIdentity-discrete, bind_candidate,
}
use alicerce.Adapters.Host.{Action}
use alicerce.Adapters.FileSystem.{HostPath, join_path, parent, is_relative_to, overlaps}
use alicerce.Adapters.GitWorkspace.Checks.{
  WorkspaceHost, Config, WorkspaceRecord, path_for, overlaps_any, is_protected, remove,
  assert_root_integrity, check_names, without_links, visit_all, walk, validate_symlinks,
  config_digest, validate_record,
}
use alicerce.Adapters.GitWorkspace.{
  Books, no_books, State, publish, forget, require_record, on_failure, materialize, prepare_record,
  prepare, snapshot_record, enter_lease, remove_renamed, undo_rename, release_record, release,
}
use alicerce.Adapters.GitWorkspace.Indexed.{IsIndexed}
use alicerce.Adapters.GitWorkspace.Reaches.{Reaches, opened, prepared, reached-IsIndexed}
use alicerce.Adapters.GitWorkspace.Prepares.{IsPrepared, prepare_sound}
use alicerce.Adapters.GitWorkspace.Releases.{IsReleased, release_sound}
use alicerce.Adapters.GitWorkspace.Validates.{IsValidated, enter_lease_sound, snapshot_sound}
use alicerce.Tests.Samples.{identity, sha}

abbrev says {ℓ} : {A : Type ℓ} → A → Action ℕ A
says a n = (ok a, suc n)

abbrev candidate_sha : CandidateSha
candidate_sha = record { value = sha }

abbrev listing : HostPath → List Text × List Text
listing path = ([], text "README" ∷ [])

-- Whether a path exists changes from one question to the next.
abbrev there : Action ℕ Bool
there n = (ok (ltb 16 n && ltb n 18), suc n)

instance abbrev quiet_host : WorkspaceHost
quiet_host = record {
  World = ℕ;
  exists = λ _. there;
  is_symlink = λ _. says false;
  is_dir = λ _. says true;
  is_file = λ _. says true;
  resolve = λ path. says path;
  scan = λ path. says (listing path);
  read_bytes = λ _. says (1 ∷ []);
  sha256 = λ bytes. bytes;
  unlink = λ _. says tt;
  rmtree = λ _. says tt;
  rename = λ _ _. says tt;
  materialize_baseline = λ _ _ _. says tt;
  verify_baseline = λ _ _. says tt;
  snapshot_candidate = λ _. says candidate_sha;
  new_workspace_id = says (record { value = text "w1" });
}

abbrev config : Config
config = record {
  source = text "src" ∷ [];
  root = text "workspaces" ∷ [];
  protected = (text "src" ∷ []) ∷ [];
}

abbrev workspace : WorkspaceIdentity
workspace = record {
  workspace_id = record { value = text "w1" };
  run_id = identity.run_id;
  baseline_sha = identity.baseline_sha;
}

abbrev record_ : WorkspaceRecord
record_ = record {
  identity = workspace;
  path = text "workspaces" ∷ text "w1" ∷ [];
  config_digest = 1 ∷ [];
}

abbrev books : Books
books = record {
  records = (workspace.workspace_id, record_) ∷ [];
  run_index = (workspace.run_id, workspace.workspace_id) ∷ [];
}

prepares : prepare config identity (no_books, 0) ≡ (ok workspace, (books, 13))
unfolding prepare prepare_record materialize on_failure assert_root_integrity path_for
    validate_symlinks walk check_names without_links visit_all remove config_digest validate_record
    is_protected overlaps_any overlaps is_relative_to join_path parent parts split is_part
    is_absolute publish lookup put pop ◌==◌ list-discrete ℕ_discrete RunId-discrete
    WorkspaceId-discrete WorkspaceIdentity-discrete
prepares = refl

prepare_sound_example : IsPrepared config identity workspace no_books books
prepare_sound_example = prepare_sound config identity no_books books 0 workspace 13 prepares

reaches : Reaches config (books, 13)
reaches =
    subst (λ (x : Result WorkspaceIdentity × State config). Reaches config x.1) prepares
      (prepared identity (opened 0))

reached-IsIndexed_example : IsIndexed config books
reached-IsIndexed_example = reached-IsIndexed config reaches

releases : release config workspace (books, 14) ≡ (ok tt, (no_books, 24))
unfolding release release_record remove_renamed undo_rename forget assert_root_integrity path_for
    validate_symlinks walk check_names without_links visit_all remove config_digest validate_record
    is_protected overlaps_any overlaps is_relative_to join_path parent parts split is_part
    is_absolute publish lookup put pop ◌==◌ list-discrete ℕ_discrete RunId-discrete
    WorkspaceId-discrete WorkspaceIdentity-discrete
releases = refl

release_sound_example :
    IsReleased config workspace.workspace_id books no_books
    × ((later : ℕ) → release config workspace (no_books, later) ≡ (ok tt, (no_books, later)))
release_sound_example =
    release_sound config workspace books 14 no_books 24 reached-IsIndexed_example releases

leases : enter_lease config workspace books 0 ≡ (ok record_.path, 11)
unfolding enter_lease require_record assert_root_integrity path_for validate_symlinks walk
    check_names without_links visit_all remove config_digest validate_record is_protected
    overlaps_any overlaps is_relative_to join_path parent parts split is_part is_absolute publish
    lookup put pop ◌==◌ list-discrete ℕ_discrete RunId-discrete WorkspaceId-discrete
    WorkspaceIdentity-discrete
leases = refl

enter_lease_sound_example :
    (r : WorkspaceRecord) × (lookup workspace.workspace_id books.records ≡ some r)
    × (r.identity ≡ workspace)
    × (r.path ≡ record_.path)
    × (parent record_.path ≡ config.root)
    × IsValidated config r 11
enter_lease_sound_example = enter_lease_sound config workspace books 0 11 record_.path leases

abbrev candidate : CandidateIdentity
candidate = record { workspace = workspace; candidate_sha = candidate_sha }

snaps : snapshot_record config workspace books 0 ≡ (ok candidate, 23)
unfolding snapshot_record require_record bind_candidate assert_root_integrity path_for
    validate_symlinks walk check_names without_links visit_all remove config_digest validate_record
    is_protected overlaps_any overlaps is_relative_to join_path parent parts split is_part
    is_absolute publish lookup put pop ◌==◌ list-discrete ℕ_discrete RunId-discrete
    WorkspaceId-discrete WorkspaceIdentity-discrete
snaps = refl

snapshot_sound_example :
    (r : WorkspaceRecord) × (lookup workspace.workspace_id books.records ≡ some r)
    × (named : CandidateSha) × (before : ℕ) × (after : ℕ) × IsValidated config r before
    × (quiet_host.snapshot_candidate r.path before ≡ (ok named, after))
    × IsValidated config r 23
    × (candidate ≡ bind_candidate workspace named)
snapshot_sound_example = snapshot_sound config workspace books 0 23 candidate snaps
