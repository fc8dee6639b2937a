-- ===== src/Adapters/GitWorkspace/Prepares.antt =====
-- What a call of `prepare` or `release` leaves in the two dicts.
use mathlib.Core.Path.{subst}
use alicerce.Prelude.{
  ◌≡◌, refl, ap, ◌∙◌, false, none, some, ◌==◌, lookup, lookup-put_self, lookup-put_other, arith,
}
use alicerce.Errors.{Result, ok, err}
use alicerce.Domain.RunIdentity.{RunId, RunIdentity, run_id_eq}
use alicerce.Domain.Workspace.{
  WorkspaceId, WorkspaceIdentity, workspace_id_eq, workspace_identity_eq,
}
use alicerce.Adapters.GitWorkspace.Checks.{WorkspaceHost, Config, WorkspaceRecord, path_for}
use alicerce.Adapters.GitWorkspace.{Books, publish, published, prepare_record, prepare}
use alicerce.Adapters.GitWorkspace.Reaches.{prepare_record_sound}

module _ ⦃host : WorkspaceHost⦄ (config : Config) where
  -- The capability `w` that leads from the dicts `b` to the dicts `c` is new.
  pub record IsPrepared (identity : RunIdentity) (w : WorkspaceIdentity) (b c : Books)
      : Type 0 where
    pub of_run : w.run_id ≡ identity.run_id
    pub of_baseline : w.baseline_sha ≡ identity.baseline_sha
    pub no_run : lookup identity.run_id b.run_index ≡ none
    pub no_record : lookup w.workspace_id b.records ≡ none
    pub recorded :
        (r : WorkspaceRecord) × (lookup w.workspace_id c.records ≡ some r)
        × (r.identity ≡ w)
        × (path_for config w.workspace_id ≡ ok r.path)
    pub others :
        (id : WorkspaceId)
        → (w.workspace_id == id) ≡ false
        → lookup id c.records ≡ lookup id b.records
    pub other_runs :
        (run : RunId)
        → (identity.run_id == run) ≡ false
        → lookup run c.run_index ≡ lookup run b.run_index

  publish-IsPrepared :
      (identity : RunIdentity) (b : Books) (r : WorkspaceRecord)
      → r.identity.run_id ≡ identity.run_id
      → r.identity.baseline_sha ≡ identity.baseline_sha
      → lookup identity.run_id b.run_index ≡ none
      → lookup r.identity.workspace_id b.records ≡ none
      → path_for config r.identity.workspace_id ≡ ok r.path
      → IsPrepared identity r.identity b (publish r b)
  unfolding publish
  publish-IsPrepared identity b r run baseline no_run no_record placed = record {
    of_run = run;
    of_baseline = baseline;
    no_run = no_run;
    no_record = no_record;
    recorded = (r, lookup-put_self r.identity.workspace_id r b.records, refl, placed);
    others = λ id other. lookup-put_other r.identity.workspace_id id r b.records other;
    other_runs = λ k other.
        lookup-put_other r.identity.run_id k r.identity.workspace_id b.run_index
          (ap (λ x. x == k) run ∙ other);
  }

  published_ok :
      (identity : RunIdentity) (b c : Books) (out : Result WorkspaceRecord × host.World)
      (w : WorkspaceIdentity) (last : host.World)
      → ((r : WorkspaceRecord) (after : host.World)
          → out ≡ (ok r, after)
          → IsPrepared identity r.identity b (publish r b))
      → published config b out ≡ (ok w, (c, last))
      → IsPrepared identity w b c
  published_ok identity b c (ok r, world) w last new h =
      subst (λ (x : WorkspaceIdentity × Books). IsPrepared identity x.0 b x.1) (cc h)
        (new r world refl)
  published_ok identity b c (err e, world) w last new h = absurd (ground arith)

  -- A capability that `prepare` returns is of the run and the baseline asked for; neither it nor the
  -- run was known before, its record is at the path of its identifier, and no other entry changes.
  pub prepare_sound :
      (identity : RunIdentity) (b c : Books) (world : host.World) (w : WorkspaceIdentity)
      (last : host.World)
      → prepare config identity (b, world) ≡ (ok w, (c, last))
      → IsPrepared identity w b c
  unfolding prepare
  prepare_sound identity b c world w last h =
      published_ok identity b c (prepare_record config b identity world) w last
        (λ r after made.
          let (run, baseline, no_run, no_record, placed) =
            prepare_record_sound config b identity world r after made in
          publish-IsPrepared identity b r run baseline no_run no_record placed)
        h
