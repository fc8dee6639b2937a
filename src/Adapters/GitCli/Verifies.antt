-- ===== src/Adapters/GitCli/Verifies.antt =====
-- What a verification of a repository has seen.
use mathlib.Core.Path.{subst, subst₂}
use alicerce.Prelude.{
  ◌≡◌, refl, sym, ap, not, List, [], ◌∷◌, ◌++◌, ◌==◌, eq→path, Text, text, nat_eq, list_eq,
}
use alicerce.Errors.{Result, ok, raise_if, ok_injective, raise_if-not_passed}
use alicerce.Domain.Patterns.{strip}
use alicerce.Domain.RunIdentity.{BaselineSha}
use alicerce.Adapters.FileSystem.{HostPath, parent}
use alicerce.Adapters.Host.{Action, lift, rethrow, action_ok, rethrow_ok, lift_ok}
use alicerce.Adapters.LinuxSandbox.Bubblewrap.{path_text}
use alicerce.Adapters.GitCli.Run.{GitHost, GitCli, failed_of_os, run}
use alicerce.Adapters.GitCli.Repository.{IsRepository, validate_repository_sound}
use alicerce.Adapters.GitCli.{
  MaterializedBaseline, mismatch, environment_of, prepare_control, validate_repository,
  with_control, read_repository, verify_baseline,
}

module _ ⦃host : GitHost⦄ (git : GitCli) where
  -- What the two runs of git printed in the repository, one after the other.
  pub record HasPrinted (trusted : HostPath) (head remotes : Text) : Type 0 where
    pub control : HostPath
    pub environment : List (Text × Text)
    pub separate :
        environment
        ≡ environment_of
            (control ++ text "home" ∷ [])
            (control ++ text "config" ∷ [])
            (control ++ text "hooks" ∷ [])
    pub before : host.World
    pub between : host.World
    pub after : host.World
    pub head_output : Text
    pub remotes_output : Text
    pub rev_parse :
        run git
          (text "-C"
            ∷ path_text trusted
            ∷ text "rev-parse"
            ∷ text "--verify"
            ∷ text "HEAD^{commit}"
            ∷ [])
          (parent trusted)
          environment
          before
        ≡ (ok head_output, between)
    pub remote :
        run git
          (text "-C" ∷ path_text trusted ∷ text "remote" ∷ [])
          (parent trusted)
          environment
          between
        ≡ (ok remotes_output, after)
    pub head_is : strip head_output ≡ head
    pub remotes_are : strip remotes_output ≡ remotes

  -- The commit of HEAD in the repository is the baseline, and it names no remote.
  pub record IsVerified (repository : HostPath) (baseline_sha : BaselineSha)
      (m : MaterializedBaseline) : Type 0 where
    pub same_baseline : m.baseline_sha ≡ baseline_sha
    pub local_metadata : IsRepository repository m.repository
    pub printed : HasPrinted m.repository baseline_sha.value []

  prepared :
      (control : HostPath) (environment : List (Text × Text)) (world last : host.World)
      → prepare_control control world ≡ (ok environment, last)
      → environment
        ≡ environment_of
            (control ++ text "home" ∷ [])
            (control ++ text "config" ∷ [])
            (control ++ text "hooks" ∷ [])
  unfolding prepare_control
  prepared control environment world last h =
      let (_, w1, _, h1) = action_ok (host.mkdir (control ++ text "hooks" ∷ [])) _ world h in
      let (_, w2, _, h2) = action_ok (host.mkdir (control ++ text "home" ∷ [])) _ w1 h1 in
      let (_, w3, _, h3) = action_ok (host.mkdir (control ++ text "config" ∷ [])) _ w2 h2 in
      sym (ok_injective (lift_ok (ok _) w3 h3))

  read_repository_sound :
      (trusted control : HostPath) (found : Text × Text) (world last : host.World)
      → read_repository git trusted control world ≡ (ok found, last)
      → HasPrinted trusted found.0 found.1
  unfolding read_repository
  read_repository_sound trusted control found world last h =
      let (environment, w1, made, h1) = action_ok (prepare_control control) _ world h in
      let (head, w2, rev_parse, h2) =
        action_ok
          (run git
            (text "-C"
              ∷ path_text trusted
              ∷ text "rev-parse"
              ∷ text "--verify"
              ∷ text "HEAD^{commit}"
              ∷ [])
            (parent trusted) environment)
          _ w1 h1 in
      let (remotes, w3, remote, h3) =
        action_ok
          (run git (text "-C" ∷ path_text trusted ∷ text "remote" ∷ []) (parent trusted)
            environment)
          _ w2 h2 in
      let both = ok_injective (lift_ok (ok (strip head, strip remotes)) w3 h3) in
      record {
        control = control;
        environment = environment;
        separate = prepared control environment world w1 made;
        before = w1;
        between = w2;
        after = w3;
        head_output = head;
        remotes_output = remotes;
        rev_parse = rev_parse;
        remote = remote;
        head_is = ap (λ (x : Text × Text). x.0) both;
        remotes_are = ap (λ (x : Text × Text). x.1) both;
      }

  -- A body that a control directory was there for.
  controlled :
      {A : Type 0} (prefix : Text) (directory : HostPath) (body : HostPath → Action host.World A)
      (world last : host.World) (a : A)
      → with_control prefix directory body world ≡ (ok a, last)
      → (control : HostPath) × (before : host.World) × (after : host.World) × (body control before
          ≡ (ok a, after))
  unfolding with_control
  controlled prefix directory body world last a h =
      let (control, w1, _, h1) = action_ok (host.make_temporary prefix directory) _ world h in
      let out = body control w1 in
      let (_, w2, _, kept) = action_ok (host.remove_temporary control) (λ _. lift out.0) out.1 h1 in
      (
        control,
        w1,
        out.1,
        ap (λ (x : Result _ × host.World). let y : Result _ × host.World = (x.0, out.1) in y) kept,
      )

  -- A verification that succeeds is of the directory that the path resolves to, which has a `.git`
  -- directory of its own, no link: `rev-parse` of HEAD there printed exactly the baseline, and
  -- `remote` printed nothing, both in an environment below a control directory.
  pub verify_baseline_sound :
      (repository : HostPath) (baseline_sha : BaselineSha) (world last : host.World)
      (m : MaterializedBaseline)
      → verify_baseline git repository baseline_sha world ≡ (ok m, last)
      → IsVerified repository baseline_sha m
  unfolding verify_baseline
  verify_baseline_sound repository baseline_sha world last m h =
      let (trusted, w1, there, h1) = action_ok (validate_repository repository) _ world h in
      let looking =
        with_control (text ".alicerce-git-control-") (parent trusted)
          (read_repository git trusted) in
      let (found, w2, read, h2) = action_ok (rethrow failed_of_os looking) _ w1 h1 in
      let (_, w3, head, h3) =
        action_ok (lift (raise_if (not (found.0 == baseline_sha.value)) mismatch)) _ w2 h2 in
      let (_, w4, remotes, h4) =
        action_ok (lift (raise_if (not (found.1 == [])) mismatch)) _ w3 h3 in
      let (control, before, after, printed) =
        controlled (text ".alicerce-git-control-") (parent trusted) (read_repository git trusted) w1
          w2 found (rethrow_ok failed_of_os looking w1 read) in
      let head_is =
        eq→path found.0 baseline_sha.value
          (raise_if-not_passed (found.0 == baseline_sha.value) mismatch (lift_ok _ w2 head)) in
      let none_left =
        eq→path found.1 [] (raise_if-not_passed (found.1 == []) mismatch (lift_ok _ w3 remotes)) in
      let made : record { repository = trusted; baseline_sha = baseline_sha } ≡ m =
        ok_injective (lift_ok (ok _) w4 h4) in
      subst (IsVerified repository baseline_sha) made (record {
        same_baseline = refl;
        local_metadata = validate_repository_sound repository trusted world w1 there;
        printed =
            subst₂ (HasPrinted trusted) head_is none_left
              (read_repository_sound trusted control found before after printed);
      })
