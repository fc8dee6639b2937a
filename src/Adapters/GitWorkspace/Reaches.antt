-- ===== src/Adapters/GitWorkspace/Reaches.antt =====
-- Sequences of calls of the adapter, between which other processes may change the host.
use mathlib.Core.Path.{subst}
use alicerce.Prelude.{
  ◌≡◌, refl, ap, ◌∙◌, inl, inr, Bool, not, Option, none, some, ◌==◌, Bool-cases, Option-cases,
  lookup, Bytes, arith,
}
use alicerce.Errors.{Exn, Result, ok, err, raise_if, workspace_error, WorkspaceErrorCause}
use alicerce.Domain.RunIdentity.{RunIdentity, run_id_eq}
use alicerce.Domain.Lifecycle.{is_none}
use alicerce.Domain.Workspace.{
  WorkspaceId, WorkspaceIdentity, workspace_id_eq, workspace_identity_eq,
}
use alicerce.Adapters.FileSystem.{HostPath}
use alicerce.Adapters.Host.{either, lift, action_ok, ◌>>=◌}
use alicerce.Adapters.GitWorkspace.Checks.{
  WorkspaceHost, Config, WorkspaceRecord, path_for, assert_root_integrity,
}
use alicerce.Adapters.GitWorkspace.{
  Books, no_books, State, Act, Ending, forgotten, forgotten_with, publish, forget, published, ended,
  materialize, prepare_record, prepare, load, snapshot, release, release_record,
}
use alicerce.Adapters.GitWorkspace.Indexed.{
  IsIndexed, no_books-IsIndexed, publish-IsIndexed, forget-IsIndexed,
}

module _ ⦃host : WorkspaceHost⦄ (config : Config) where
  -- The state of an adapter that was just opened, and after any further call, also one that raises.
  pub data Reaches : State config → Type 0 where
    opened : (world : host.World) → Reaches (no_books, world)
    elsewhere :
        {b : Books} {world : host.World} (after : host.World)
        → Reaches (b, world)
        → Reaches (b, after)
    prepared :
        {s : State config} (identity : RunIdentity)
        → Reaches s
        → Reaches (prepare config identity s).1
    loaded : {s : State config} (id : WorkspaceId) → Reaches s → Reaches (load config id s).1
    snapped :
        {s : State config} (workspace : WorkspaceIdentity)
        → Reaches s
        → Reaches (snapshot config workspace s).1
    released :
        {s : State config} (workspace : WorkspaceIdentity)
        → Reaches s
        → Reaches (release config workspace s).1

  lifted :
      {A : Type 0} (r : Result A) (world : host.World) {a : A} {last : host.World}
      → lift r world ≡ (ok a, last)
      → r ≡ ok a
  lifted r world h = ap (λ (x : Result _ × host.World). x.0) h

  absent :
      {A : Type 0} (o : Option A) (e : Exn) {u : Unit {0}}
      → raise_if (not (is_none o)) e ≡ ok u
      → o ≡ none
  absent none e h = refl
  absent (some a) e h = absurd (ground arith)

  free :
      {A : Type 0} (o : Option A) (other : Act config Bool) (world : host.World) {taken : Bool}
      {last : host.World} (e : Exn) {u : Unit {0}}
      → either (not (is_none o)) other world ≡ (ok taken, last)
      → raise_if taken e ≡ ok u
      → o ≡ none
  free none other world e h g = refl
  free (some a) other world {taken} e h g = absurd (ground arith)

  abbrev in_the_way : HostPath → Act config Bool
  in_the_way path = do there ← host.exists path; either there (host.is_symlink path)

  abbrev new_record : RunIdentity → WorkspaceId → HostPath → Bytes → WorkspaceRecord
  new_record identity id destination digest = record {
    identity = record {
      workspace_id = id;
      run_id = identity.run_id;
      baseline_sha = identity.baseline_sha;
    };
    path = destination;
    config_digest = digest;
  }

  same_value : {A : Type 0} {a c : A} → (let r : Result A = ok a in r) ≡ ok c → a ≡ c
  same_value h = cc h

  abbrev exists_already : Exn
  exists_already = workspace_error WorkspaceErrorCause.already_exists

  -- A record that `prepare` publishes is new, under a new run, at the path of its identifier.
  pub prepare_record_sound :
      (b : Books) (identity : RunIdentity) (world : host.World) (r : WorkspaceRecord)
      (last : host.World)
      → prepare_record config b identity world ≡ (ok r, last)
      → (r.identity.run_id ≡ identity.run_id)
        × (r.identity.baseline_sha ≡ identity.baseline_sha)
        × (lookup identity.run_id b.run_index ≡ none)
        × (lookup r.identity.workspace_id b.records ≡ none)
        × (path_for config r.identity.workspace_id ≡ ok r.path)
  unfolding prepare_record
  prepare_record_sound b identity world r last h =
      let (u, w1, _, h1) = action_ok (assert_root_integrity config) _ world h in
      let (v, w2, new_run, h2) =
        action_ok
          (lift (raise_if (not (is_none (lookup identity.run_id b.run_index))) exists_already)) _ w1
          h1 in
      let (id, w3, _, h3) = action_ok host.new_workspace_id _ w2 h2 in
      let (destination, w4, placed, h4) = action_ok (lift (path_for config id)) _ w3 h3 in
      let (taken, w5, asked, h5) =
        action_ok (either (not (is_none (lookup id b.records))) (in_the_way destination)) _ w4 h4 in
      let (v2, w6, unused, h6) = action_ok (lift (raise_if taken exists_already)) _ w5 h5 in
      let (digest, w7, made, h7) = action_ok (materialize config destination identity) _ w6 h6 in
      let at_run = absent (lookup identity.run_id b.run_index) exists_already (
        lifted (raise_if (not (is_none (lookup identity.run_id b.run_index))) exists_already) w1
          new_run) in
      let at_id =
        free (lookup id b.records) (in_the_way destination) w4 exists_already asked
          (lifted (raise_if taken exists_already) w5 unused) in
      subst
        (λ (x : WorkspaceRecord).
          (x.identity.run_id ≡ identity.run_id)
          × (x.identity.baseline_sha ≡ identity.baseline_sha)
          × (lookup identity.run_id b.run_index ≡ none)
          × (lookup x.identity.workspace_id b.records ≡ none)
          × (path_for config x.identity.workspace_id ≡ ok x.path))
        (same_value (lifted (ok (new_record identity id destination digest)) w7 h7))
        (refl, refl, at_run, at_id, lifted (path_for config id) w3 placed)

  published_keeps :
      (b : Books) (out : Result WorkspaceRecord × host.World)
      → IsIndexed config b
      → ((r : WorkspaceRecord) (last : host.World)
          → out ≡ (ok r, last)
          → IsIndexed config (publish r b))
      → IsIndexed config (published config b out).1.0
  published_keeps b (ok r, world) h new = new r world refl
  published_keeps b (err e, world) h new = h

  prepare_keeps :
      (b : Books) (world : host.World) (identity : RunIdentity)
      → IsIndexed config b
      → IsIndexed config (prepare config identity (b, world)).1.0
  unfolding prepare
  prepare_keeps b world identity h =
      published_keeps b (prepare_record config b identity world) h (λ r last made.
        let (run, baseline, new_run, new_id, placed) =
          prepare_record_sound b identity world r last made in
        publish-IsIndexed config b r h (ap (λ x. lookup x b.run_index) run ∙ new_run) new_id placed)

  ended_keeps :
      (b : Books) (r : WorkspaceRecord) (out : Result Ending × host.World)
      → IsIndexed config b
      → IsIndexed config (forget r b)
      → IsIndexed config (ended config r b out).1.0
  ended_keeps b r (ok forgotten, world) h k = k
  ended_keeps b r (ok (forgotten_with e), world) h k = k
  ended_keeps b r (err e, world) h k = h

  pub release_keeps :
      (b : Books) (world : host.World) (workspace : WorkspaceIdentity)
      → IsIndexed config b
      → IsIndexed config (release config workspace (b, world)).1.0
  unfolding release
  release_keeps b world workspace h =
      elim (Option-cases (lookup workspace.workspace_id b.records)) [
        | inl missing ↦ rw (release, missing) h
        | inr (r, found) ↦ elim (Bool-cases (r.identity == workspace)) [
          | inl same ↦
              let (named, _, _) = h.by_id workspace.workspace_id r found in
              let there = ap (λ x. lookup x b.records) named ∙ found in
              rw (release, found, same)
                (ended_keeps b r (release_record config r world) h
                  (forget-IsIndexed config b r h there))
          | inr other ↦ rw (release, found, other) h
        ]
      ]

  -- In every state that an adapter reaches, the two dicts index the same capabilities, each at the path
  -- of its identifier, whatever the host answers and also after calls that raise.
  pub reached-IsIndexed : {s : State config} → Reaches s → IsIndexed config s.0
  unfolding load snapshot
  reached-IsIndexed (opened world) = no_books-IsIndexed config
  reached-IsIndexed (elsewhere after h) = reached-IsIndexed h
  reached-IsIndexed (prepared identity h) = prepare_keeps _ _ identity (reached-IsIndexed h)
  reached-IsIndexed (loaded id h) = reached-IsIndexed h
  reached-IsIndexed (snapped workspace h) = reached-IsIndexed h
  reached-IsIndexed (released workspace h) = release_keeps _ _ workspace (reached-IsIndexed h)
