-- ===== src/Adapters/GitWorkspace/Validates.antt =====
-- What the adapter knows of a workspace that it lends out, snapshots or reports.
use mathlib.Core.Path.{subst}
use alicerce.Prelude.{
  ◌≡◌, sym, ap, ◌∙◌, inl, inr, Bool, false, not, ◌||◌, some, [], ◌∷◌, ◌==◌, eq→path, Bytes, nat_eq,
  list_eq, lookup, Bool-cases, Option-cases, arith,
}
use alicerce.Errors.{Exn, ok, err, raise_if, ok_injective, raise_if_passed, raise_if-not_passed}
use alicerce.Domain.Workspace.{
  WorkspaceId, WorkspaceIdentity, CandidateIdentity, CandidateSha, workspace_id_eq,
  workspace_identity_eq, bind_candidate,
}
use alicerce.Adapters.FileSystem.{HostPath, join_path, parent}
use alicerce.Adapters.Host.{
  either, lift, rethrow, action_ok, rethrow_ok, lift_ok, lift_same_world, ◌>>=◌, ◌>>◌,
}
use alicerce.Adapters.GitWorkspace.Checks.{
  WorkspaceHost, Config, WorkspaceRecord, isolation, translate_git_error, path_for, is_protected,
  assert_root_integrity, config_digest, validate_symlinks, validate_record,
}
use alicerce.Adapters.GitWorkspace.Contained.{TreesContained, validate_symlinks_sound}
use alicerce.Adapters.GitWorkspace.{Books, Act, require_record, enter_lease, snapshot_record}

module _ ⦃host : WorkspaceHost⦄ (config : Config) where
  -- What a validation of a record has established between two states of the host.
  pub record IsValidated (r : WorkspaceRecord) (last : host.World) : Type 0 where
    pub placed : path_for config r.identity.workspace_id ≡ ok r.path
    pub unprotected : is_protected config r.path ≡ false
    pub links : TreesContained r.path (r.path ∷ [])
    pub contained : host.World
    pub hashed : host.World
    pub configuration : config_digest r.path contained ≡ (ok r.config_digest, hashed)
    pub baseline : host.verify_baseline r.path r.identity.baseline_sha hashed ≡ (ok tt, last)

  right_of : (a b : Bool) → (a || b) ≡ false → b ≡ false
  right_of a b h = ground arith

  of_checks :
      (r : WorkspaceRecord) (expected : HostPath) (broken : Bool) (digest : Bytes)
      (w6 w7 w8 w9 last : host.World)
      → path_for config r.identity.workspace_id ≡ ok expected
      → raise_if (not (r.path == expected)) isolation ≡ ok tt
      → raise_if (broken || is_protected config r.path) isolation ≡ ok tt
      → validate_symlinks r.path w6 ≡ (ok tt, w7)
      → config_digest r.path w7 ≡ (ok digest, w8)
      → lift (raise_if (not (digest == r.config_digest)) isolation) w8 ≡ (ok tt, w9)
      → host.verify_baseline r.path r.identity.baseline_sha w9 ≡ (ok tt, last)
      → IsValidated r last
  of_checks r expected broken digest w6 w7 w8 w9 last placed at_place safe links read same
        verified =
      let compared = raise_if (not (digest == r.config_digest)) isolation in
      let there =
        eq→path r.path expected (raise_if-not_passed (r.path == expected) isolation at_place) in
      let kept =
        eq→path digest r.config_digest
          (raise_if-not_passed (digest == r.config_digest) isolation (lift_ok compared w8 same)) in
      record {
        placed = subst (λ x. path_for config r.identity.workspace_id ≡ ok x) (sym there) placed;
        unprotected =
            right_of broken (is_protected config r.path)
              (raise_if_passed (broken || is_protected config r.path) isolation safe);
        links = validate_symlinks_sound r.path w6 w7 links;
        contained = w7;
        hashed = w8;
        configuration = subst (λ x. config_digest r.path w7 ≡ (ok x, w8)) kept read;
        baseline =
            subst (λ x. host.verify_baseline r.path r.identity.baseline_sha x ≡ (ok tt, last))
              (sym (lift_same_world compared w8 same)) verified;
      }

  pub validate_record_sound :
      (r : WorkspaceRecord) (world last : host.World)
      → validate_record config r world ≡ (ok tt, last)
      → IsValidated r last
  unfolding validate_record
  validate_record_sound r world last h =
      let (_, w1, _, h1) = action_ok (assert_root_integrity config) _ world h in
      let (expected, w2, placed, h2) =
        action_ok (lift (path_for config r.identity.workspace_id)) _ w1 h1 in
      let (_, w3, at_place, h3) =
        action_ok (lift (raise_if (not (r.path == expected)) isolation)) _ w2 h2 in
      let (link, w4, _, h4) = action_ok (host.is_symlink r.path) _ w3 h3 in
      let (broken, w5, _, h5) =
        action_ok (either link (do directory ← host.is_dir r.path; lift (ok (not directory)))) _ w4
          h4 in
      let (_, w6, safe, h6) =
        action_ok (lift (raise_if (broken || is_protected config r.path) isolation)) _ w5 h5 in
      let (_, w7, links, h7) = action_ok (validate_symlinks r.path) _ w6 h6 in
      let (digest, w8, read, h8) = action_ok (config_digest r.path) _ w7 h7 in
      let (_, w9, same, h9) =
        action_ok (lift (raise_if (not (digest == r.config_digest)) isolation)) _ w8 h8 in
      of_checks r expected broken digest w6 w7 w8 w9 last
        (lift_ok (path_for config r.identity.workspace_id) w1 placed)
        (lift_ok (raise_if (not (r.path == expected)) isolation) w2 at_place)
        (lift_ok (raise_if (broken || is_protected config r.path) isolation) w5 safe) links read
        same
        (rethrow_ok translate_git_error (host.verify_baseline r.path r.identity.baseline_sha) w9 h9)

  below :
      (id : WorkspaceId) (path : HostPath)
      → path_for config id ≡ ok path
      → parent path ≡ config.root
  unfolding path_for
  below id path h = elim (Bool-cases (parent (join_path config.root id.value) == config.root)) [
    | inl same ↦
        subst (λ x. parent x ≡ config.root) (cc (rw (path_for, same) at h))
          (eq→path (parent (join_path config.root id.value)) config.root same)
    | inr other ↦ absurd (ground arith)
  ]

  refused : {A : Type 0} {e : Exn} {a : A} → err e ≡ ok a → ⊥
  refused h = ground arith

  required :
      (workspace : WorkspaceIdentity) (b : Books) (r : WorkspaceRecord)
      → require_record workspace b ≡ ok r
      → (lookup workspace.workspace_id b.records ≡ some r) × (r.identity ≡ workspace)
  unfolding require_record
  required workspace b r h = elim (Option-cases (lookup workspace.workspace_id b.records)) [
    | inl missing ↦ absurd (refused (rw (require_record, missing) at h))
    | inr (x, found) ↦ elim (Bool-cases (x.identity == workspace)) [
      | inl same ↦
          let here : x ≡ r = ok_injective (rw (require_record, found, same) at h) in
          (
            subst (λ y. lookup workspace.workspace_id b.records ≡ some y) here found,
            subst (λ (y : WorkspaceRecord). y.identity ≡ workspace) here
                (eq→path x.identity workspace same),
          )
      | inr other ↦ absurd (refused (rw (require_record, found, other) at h))
    ]
  ]

  -- A lease of a workspace is of the path of its record, which is directly below the root, apart from
  -- the protected roots, and was validated just before: in it and the directories below it that are
  -- no links, git's own directory left out, each name was no link or one that resolved to a path in
  -- it; its git configuration had the recorded digest, and git verified the recorded baseline.
  pub enter_lease_sound :
      (workspace : WorkspaceIdentity) (b : Books) (world last : host.World) (path : HostPath)
      → enter_lease config workspace b world ≡ (ok path, last)
      → (r : WorkspaceRecord) × (lookup workspace.workspace_id b.records ≡ some r)
        × (r.identity ≡ workspace)
        × (r.path ≡ path)
        × (parent path ≡ config.root)
        × IsValidated r last
  unfolding enter_lease
  enter_lease_sound workspace b world last path h =
      let (r, w1, found, h1) = action_ok (lift (require_record workspace b)) _ world h in
      let (_, w2, valid, h2) = action_ok (validate_record config r) _ w1 h1 in
      let (there, named) = required workspace b r (lift_ok _ world found) in
      let here : r.path ≡ path = cc (lift_ok (ok r.path) w2 h2) in
      let validated =
        subst (IsValidated r) (lift_same_world (ok r.path) w2 h2)
          (validate_record_sound r w1 w2 valid) in
      (
        r,
        there,
        named,
        here,
        subst (λ x. parent x ≡ config.root) here
            (below r.identity.workspace_id r.path validated.placed),
        validated,
      )

  abbrev taking : WorkspaceRecord → Act config CandidateSha
  taking r = do sha ← host.snapshot_candidate r.path; validate_record config r; lift (ok sha)

  taken_between :
      (r : WorkspaceRecord) (world last : host.World) (sha : CandidateSha)
      → taking r world ≡ (ok sha, last)
      → (after : host.World) × (host.snapshot_candidate r.path world ≡ (ok sha, after))
        × IsValidated r last
  taken_between r world last sha h =
      let (made, w1, named, h1) = action_ok (host.snapshot_candidate r.path) _ world h in
      let (_, w2, again, h2) = action_ok (validate_record config r) _ w1 h1 in
      let here : made ≡ sha = ok_injective (lift_ok (ok made) w2 h2) in
      (
        w1,
        subst (λ x. host.snapshot_candidate r.path world ≡ (ok x, w1)) here named,
        subst (IsValidated r) (lift_same_world (ok made) w2 h2)
            (validate_record_sound r w1 w2 again),
      )

  -- A candidate is what git names in the workspace's own directory between two validations of it,
  -- bound to the identity that was asked for.
  pub snapshot_sound :
      (workspace : WorkspaceIdentity) (b : Books) (world last : host.World)
      (candidate : CandidateIdentity)
      → snapshot_record config workspace b world ≡ (ok candidate, last)
      → (r : WorkspaceRecord) × (lookup workspace.workspace_id b.records ≡ some r)
        × (sha : CandidateSha) × (before : host.World) × (after : host.World) × IsValidated r before
        × (host.snapshot_candidate r.path before ≡ (ok sha, after))
        × IsValidated r last
        × (candidate ≡ bind_candidate workspace sha)
  unfolding snapshot_record
  snapshot_sound workspace b world last candidate h =
      let (r, w1, found, h1) = action_ok (lift (require_record workspace b)) _ world h in
      let (_, w2, valid, h2) = action_ok (validate_record config r) _ w1 h1 in
      let (sha, w3, taken, h3) = action_ok (rethrow translate_git_error (taking r)) _ w2 h2 in
      let (after, made, again) =
        taken_between r w2 w3 sha (rethrow_ok translate_git_error (taking r) w2 taken) in
      let (there, named) =
        required workspace b r (lift_ok (require_record workspace b) world found) in
      let bound = bind_candidate r.identity sha in
      (
        r,
        there,
        sha,
        w2,
        after,
        validate_record_sound r w1 w2 valid,
        made,
        subst (IsValidated r) (lift_same_world (ok bound) w3 h3) again,
        sym (ok_injective (lift_ok (ok bound) w3 h3)) ∙ ap (λ x. bind_candidate x sha) named,
      )
