-- ===== src/Adapters/GitWorkspace/Releases.antt =====
-- What a call of `release` leaves in the two dicts.
use mathlib.Core.Path.{subst}
use alicerce.Prelude.{
  ◌≡◌, ◌≢◌, refl, sym, ap, ◌∙◌, inl, inr, true, false, none, some, ◌==◌, Bool-cases, Option-cases,
  lookup, pop, lookup-pop_self, lookup-pop_other, arith,
}
use alicerce.Errors.{Result, ok, err, workspace_error, WorkspaceErrorCause}
use alicerce.Domain.RunIdentity.{RunId, run_id_eq}
use alicerce.Domain.Workspace.{
  WorkspaceId, WorkspaceIdentity, workspace_id_eq, workspace_identity_eq,
}
use alicerce.Adapters.GitWorkspace.Checks.{WorkspaceHost, Config, WorkspaceRecord}
use alicerce.Adapters.GitWorkspace.{
  Books, Ending, forgotten, forgotten_with, forget, ended, release, release_record,
}
use alicerce.Adapters.GitWorkspace.Indexed.{IsIndexed}
use alicerce.Adapters.GitWorkspace.Reaches.{release_keeps}

module _ ⦃host : WorkspaceHost⦄ (config : Config) where
  -- The dicts `c` are `b` without the capability `id`.
  pub record IsReleased (id : WorkspaceId) (b c : Books) : Type 0 where
    pub gone : lookup id c.records ≡ none
    pub no_run : (run : RunId) → lookup run c.run_index ≢ some id
    pub others :
        (other : WorkspaceId)
        → (id == other) ≡ false
        → lookup other c.records ≡ lookup other b.records

  ended_ok :
      (r : WorkspaceRecord) (b c : Books) (out : Result Ending × host.World) (last : host.World)
      → ended config r b out ≡ (ok tt, (c, last))
      → c ≡ forget r b
  ended_ok r b c (ok forgotten, world) last h = cc h
  ended_ok r b c (ok (forgotten_with e), world) last h = absurd (ground arith)
  ended_ok r b c (err e, world) last h = absurd (ground arith)

  same_books :
      {b c : Books} {u v : Unit {0}} {world last : host.World}
      → (let out : Result (Unit {0}) × (Books × host.World) = (ok u, (b, world)) in out)
        ≡ (ok v, (c, last))
      → b ≡ c
  same_books h = cc h

  no_run_of :
      (c : Books) (id : WorkspaceId)
      → IsIndexed config c
      → lookup id c.records ≡ none
      → (run : RunId) → lookup run c.run_index ≢ some id
  no_run_of c id h gone run found =
      let (r, there, _) = h.by_run run id found in
      let clash = sym gone ∙ there in absurd (ground arith)

  forget-gone :
      (b : Books) (r : WorkspaceRecord) (id : WorkspaceId)
      → r.identity.workspace_id ≡ id
      → lookup id (forget r b).records ≡ none
  unfolding forget
  forget-gone b r id named =
      subst (λ x. lookup x (pop r.identity.workspace_id b.records) ≡ none) named
        (lookup-pop_self r.identity.workspace_id b.records)

  forget-others :
      (b : Books) (r : WorkspaceRecord) (id : WorkspaceId)
      → r.identity.workspace_id ≡ id
      → (other : WorkspaceId) → (id == other) ≡ false
      → lookup other (forget r b).records ≡ lookup other b.records
  unfolding forget
  forget-others b r id named other apart =
      lookup-pop_other r.identity.workspace_id other b.records (ap (λ x. x == other) named ∙ apart)

  module _ (workspace : WorkspaceIdentity) (b : Books) (world : host.World) where
    release-missing :
        lookup workspace.workspace_id b.records ≡ none
        → release config workspace (b, world) ≡ (ok tt, (b, world))
    unfolding release
    release-missing missing = rw (release, missing)

    release-found :
        (r : WorkspaceRecord)
        → lookup workspace.workspace_id b.records ≡ some r
        → (r.identity == workspace) ≡ true
        → release config workspace (b, world) ≡ ended config r b (release_record config r world)
    unfolding release release_record
    release-found r found same = rw (release, found, same)

    release-conflict :
        (r : WorkspaceRecord)
        → lookup workspace.workspace_id b.records ≡ some r
        → (r.identity == workspace) ≡ false
        → release config workspace (b, world)
          ≡ (err (workspace_error WorkspaceErrorCause.conflict), (b, world))
    unfolding release
    release-conflict r found other = rw (release, found, other)

  abbrev Dropped : WorkspaceId → Books → Books → Type 0
  Dropped id b c =
      (lookup id c.records ≡ none)
      × ((other : WorkspaceId)
          → (id == other) ≡ false
          → lookup other c.records ≡ lookup other b.records)

  module _ (workspace : WorkspaceIdentity) (b : Books) (world : host.World) where
    dropped :
        (c : Books) (last : host.World)
        → IsIndexed config b
        → release config workspace (b, world) ≡ (ok tt, (c, last))
        → Dropped workspace.workspace_id b c
    dropped c last h done = elim (Option-cases (lookup workspace.workspace_id b.records)) [
      | inl missing ↦
          subst (Dropped workspace.workspace_id b)
            (same_books (sym (release-missing workspace b world missing) ∙ done))
            (missing, λ other apart. refl)
      | inr (r, found) ↦ elim (Bool-cases (r.identity == workspace)) [
        | inl same ↦
            let forgot =
              ended_ok r b c (release_record config r world) last
                (sym (release-found workspace b world r found same) ∙ done) in
            let named = (h.by_id workspace.workspace_id r found).0 in
            subst (Dropped workspace.workspace_id b) (sym forgot) (
              forget-gone b r workspace.workspace_id named,
              forget-others b r workspace.workspace_id named,
            )
        | inr other ↦
            let clash = sym (release-conflict workspace b world r found other) ∙ done in
            absurd (ground arith)
      ]
    ]

    -- After a release that returns, on dicts that index the same capabilities, no entry leads to the
    -- workspace, every other record is as it was, and releasing it again does nothing.
    pub release_sound :
        (c : Books) (last : host.World)
        → IsIndexed config b
        → release config workspace (b, world) ≡ (ok tt, (c, last))
        → IsReleased workspace.workspace_id b c
          × ((later : host.World) → release config workspace (c, later) ≡ (ok tt, (c, later)))
    release_sound c last h done =
        let (gone, others) = dropped c last h done in
        let indexed =
          subst (IsIndexed config) (ap (λ x. x.1.0) done)
            (release_keeps config b world workspace h) in
        (
          record {
            gone = gone;
            no_run = no_run_of c workspace.workspace_id indexed gone;
            others = others;
          },
          λ later. release-missing workspace c later gone,
        )
