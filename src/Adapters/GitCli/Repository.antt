-- ===== src/Adapters/GitCli/Repository.antt =====
-- What a validation of a repository's path has seen.
use mathlib.Core.Path.{subst}
use alicerce.Prelude.{◌≡◌, Bool, true, false, not, [], ◌∷◌, ◌++◌, text, arith}
use alicerce.Errors.{ok, raise_if, ok_injective, raise_if_passed}
use alicerce.Adapters.FileSystem.{HostPath}
use alicerce.Adapters.Host.{
  Action, ◌>>=◌, either, lift, rethrow, action_ok, rethrow_ok, lift_ok, either-false,
}
use alicerce.Adapters.GitCli.Run.{GitHost, invalid_of_os}
use alicerce.Adapters.GitCli.{invalid_path, validate_repository}

module _ ⦃host : GitHost⦄ where
  abbrev metadata_of : HostPath → HostPath
  metadata_of trusted = trusted ++ text ".git" ∷ []

  -- A path that resolves to a directory with a `.git` of its own: a directory, and no link.
  pub record IsRepository (repository trusted : HostPath) : Type 0 where
    pub w0 : host.World
    pub w1 : host.World
    pub w2 : host.World
    pub w3 : host.World
    pub w4 : host.World
    pub resolved : host.resolve repository w0 ≡ (ok trusted, w1)
    pub directory : host.is_dir trusted w1 ≡ (ok true, w2)
    pub metadata : host.is_dir (trusted ++ text ".git" ∷ []) w2 ≡ (ok true, w3)
    pub own : host.is_symlink (trusted ++ text ".git" ∷ []) w3 ≡ (ok false, w4)

  positive : (a : Bool) → not a ≡ false → a ≡ true
  positive a h = ground arith

  -- The test of the metadata, which is asked of a directory.
  abbrev unfit_metadata : HostPath → Action host.World Bool
  unfit_metadata trusted = do
    metadata ← host.is_dir (metadata_of trusted)
    either (not metadata) (host.is_symlink (metadata_of trusted))

  of_tests :
      (repository trusted : HostPath) (directory unfit : Bool) (w0 w1 w2 w4 w5 : host.World)
      → host.resolve repository w0 ≡ (ok trusted, w1)
      → host.is_dir trusted w1 ≡ (ok directory, w2)
      → either (not directory) (unfit_metadata trusted) w2 ≡ (ok unfit, w4)
      → lift (raise_if unfit invalid_path) w4 ≡ (ok tt, w5)
      → IsRepository repository trusted
  of_tests repository trusted directory unfit w0 w1 w2 w4 w5 resolved asked tested fit =
      let own = host.is_symlink (metadata_of trusted) in
      let clean =
        raise_if_passed unfit invalid_path (lift_ok (raise_if unfit invalid_path) w4 fit) in
      let (there, inside) = either-false (not directory) (unfit_metadata trusted) w2 w4 (
        subst (λ b. either (not directory) (unfit_metadata trusted) w2 ≡ (ok b, w4)) clean
          tested) in
      let (metadata, w3, found, rest) =
        action_ok (host.is_dir (metadata_of trusted)) (λ metadata. either (not metadata) own) w2
          inside in
      let (with_metadata, no_link) = either-false (not metadata) own w3 w4 rest in
      record {
        w0 = w0;
        w1 = w1;
        w2 = w2;
        w3 = w3;
        w4 = w4;
        resolved = resolved;
        directory =
            subst (λ b. host.is_dir trusted w1 ≡ (ok b, w2)) (positive directory there) asked;
        metadata =
            subst (λ b. host.is_dir (metadata_of trusted) w2 ≡ (ok b, w3))
              (positive metadata with_metadata) found;
        own = no_link;
      }

  pub validate_repository_sound :
      (repository trusted : HostPath) (world last : host.World)
      → validate_repository repository world ≡ (ok trusted, last)
      → IsRepository repository trusted
  unfolding validate_repository
  validate_repository_sound repository trusted world last h =
      let (t, w1, resolved, h1) =
        action_ok (rethrow invalid_of_os (host.resolve repository)) _ world h in
      let (directory, w2, asked, h2) = action_ok (host.is_dir t) _ w1 h1 in
      let (unfit, w4, tested, h4) = action_ok (either (not directory) (unfit_metadata t)) _ w2 h2 in
      let (_, w5, fit, h5) = action_ok (lift (raise_if unfit invalid_path)) _ w4 h4 in
      subst (IsRepository repository) (ok_injective (lift_ok (ok t) w5 h5)) (
        of_tests repository t directory unfit world w1 w2 w4 w5
          (rethrow_ok invalid_of_os (host.resolve repository) world resolved) asked tested fit)
