-- ===== src/Adapters/GitWorkspace/Indexed.antt =====
-- The invariant of the two dicts of the adapter, and the changes of them that it allows.
use mathlib.Core.Path.{subst, subst₂}
use alicerce.Prelude.{
  ◌≡◌, refl, sym, ap, ◌∙◌, inl, inr, Bool, true, false, none, some, ◌==◌, ==_iff, eq→path,
  Bool-cases, lookup, put, pop, lookup-put_self, lookup-put_other, lookup-pop_self,
  lookup-pop_other, arith,
}
use alicerce.Errors.{ok}
use alicerce.Domain.RunIdentity.{RunId, run_id_eq}
use alicerce.Domain.Workspace.{WorkspaceId, workspace_id_eq}
use alicerce.Adapters.GitWorkspace.Checks.{Config, WorkspaceRecord, path_for}
use alicerce.Adapters.GitWorkspace.{Books, no_books, publish, forget}

same_value : {A : Type 0} {a b : A} → some a ≡ some b → a ≡ b
same_value h = cc h

never_there : {A : Type 0} {a : A} → none ≡ some a → ⊥
never_there h = cc h

clash : {c : Bool} → c ≡ false → c ≡ true → ⊥
clash p q = cc (p, q)

module _ (config : Config) where
  pub record IsIndexed (b : Books) : Type 0 where
    pub by_id :
        (id : WorkspaceId) (r : WorkspaceRecord)
        → lookup id b.records ≡ some r
        → (r.identity.workspace_id ≡ id)
          × (lookup r.identity.run_id b.run_index ≡ some id)
          × (path_for config id ≡ ok r.path)
    pub by_run :
        (run : RunId) (id : WorkspaceId)
        → lookup run b.run_index ≡ some id
        → (r : WorkspaceRecord) × (lookup id b.records ≡ some r) × (r.identity.run_id ≡ run)

  pub no_books-IsIndexed : IsIndexed no_books
  unfolding lookup
  no_books-IsIndexed = record {
    by_id = λ id r h. absurd (ground arith);
    by_run = λ run id h. absurd (ground arith);
  }

  -- Two keys are different if one of them is in the dict and the other is not.
  apart :
      (b : Books) (k j : RunId) {id : WorkspaceId}
      → lookup k b.run_index ≡ none
      → lookup j b.run_index ≡ some id
      → (k == j) ≡ false
  apart b k j absent present = elim (Bool-cases (k == j)) [
    | inl same ↦
        let clash = sym absent ∙ ap (λ x. lookup x b.run_index) (eq→path k j same) ∙ present in
        absurd (ground arith)
    | inr other ↦ other
  ]

  apart_id :
      (b : Books) (k j : WorkspaceId) {r : WorkspaceRecord}
      → lookup k b.records ≡ none
      → lookup j b.records ≡ some r
      → (k == j) ≡ false
  apart_id b k j absent present = elim (Bool-cases (k == j)) [
    | inl same ↦
        let clash = sym absent ∙ ap (λ x. lookup x b.records) (eq→path k j same) ∙ present in
        absurd (ground arith)
    | inr other ↦ other
  ]

  module _ (b : Books) (n : WorkspaceRecord) (h : IsIndexed b)
      (new_run : lookup n.identity.run_id b.run_index ≡ none)
      (new_id : lookup n.identity.workspace_id b.records ≡ none)
      (placed : path_for config n.identity.workspace_id ≡ ok n.path) where
    abbrev id : WorkspaceId
    id = n.identity.workspace_id

    abbrev run : RunId
    run = n.identity.run_id

    -- A new record under a new run keeps the index.
    pub publish-IsIndexed : IsIndexed (publish n b)
    unfolding publish
    publish-IsIndexed = record {
      by_id = λ j r found. elim (Bool-cases (id == j)) [
        | inl same ↦
            let at_id =
              subst (λ x. lookup x (put id n b.records) ≡ some r) (sym (eq→path id j same)) found in
            let here = same_value (sym (lookup-put_self id n b.records) ∙ at_id) in
            subst₂
              (λ (x : WorkspaceRecord) (i : WorkspaceId).
                (x.identity.workspace_id ≡ i)
                × (lookup x.identity.run_id (put run id b.run_index) ≡ some i)
                × (path_for config i ≡ ok x.path))
              here (eq→path id j same) (refl, lookup-put_self run id b.run_index, placed)
        | inr other ↦
            let old = sym (lookup-put_other id j n b.records other) ∙ found in
            let (named, indexed, path) = h.by_id j r old in
            (
              named,
              lookup-put_other run r.identity.run_id id b.run_index
                    (apart b run r.identity.run_id new_run indexed)
                  ∙ indexed,
              path,
            )
      ];
      by_run = λ k j found. elim (Bool-cases (run == k)) [
        | inl same ↦
            let at_run =
              subst (λ x. lookup x (put run id b.run_index) ≡ some j) (sym (eq→path run k same))
                found in
            let here = same_value (sym (lookup-put_self run id b.run_index) ∙ at_run) in
            subst₂
              (λ (q : RunId) (i : WorkspaceId).
                (x : WorkspaceRecord) × (lookup i (put id n b.records) ≡ some x)
                × (x.identity.run_id ≡ q))
              (eq→path run k same) here (n, lookup-put_self id n b.records, refl)
        | inr other ↦
            let old = sym (lookup-put_other run k id b.run_index other) ∙ found in
            let (r, there, of_run) = h.by_run k j old in
            (r, lookup-put_other id j n b.records (apart_id b id j new_id there) ∙ there, of_run)
      ];
    }

  module _ (b : Books) (o : WorkspaceRecord) (h : IsIndexed b)
      (there : lookup o.identity.workspace_id b.records ≡ some o) where
    other_run :
        (j : WorkspaceId) (r : WorkspaceRecord)
        → (o.identity.workspace_id == j) ≡ false
        → lookup r.identity.run_id b.run_index ≡ some j
        → (o.identity.run_id == r.identity.run_id) ≡ false
    other_run j r other indexed = elim (Bool-cases (o.identity.run_id == r.identity.run_id)) [
      | inr apart_runs ↦ apart_runs
      | inl same ↦
          let mine = (h.by_id o.identity.workspace_id o there).1 in
          let id_j =
            same_value (sym mine ∙ ap (λ x. lookup x b.run_index) (eq→path _ _ same) ∙ indexed) in
          absurd (clash other ((==_iff o.identity.workspace_id j).1 id_j))
    ]

    other_id :
        (k : RunId) (j : WorkspaceId) (r : WorkspaceRecord)
        → (o.identity.run_id == k) ≡ false
        → lookup j b.records ≡ some r
        → r.identity.run_id ≡ k
        → (o.identity.workspace_id == j) ≡ false
    other_id k j r other present of_run = elim (Bool-cases (o.identity.workspace_id == j)) [
      | inr apart_ids ↦ apart_ids
      | inl same ↦
          let o_r =
            same_value (sym there ∙ ap (λ x. lookup x b.records) (eq→path _ _ same) ∙ present) in
          let run_k = ap (λ (x : WorkspaceRecord). x.identity.run_id) o_r ∙ of_run in
          absurd (clash other ((==_iff o.identity.run_id k).1 run_k))
    ]

    -- A record that is dropped from both dicts keeps the index.
    pub forget-IsIndexed : IsIndexed (forget o b)
    unfolding forget
    forget-IsIndexed = record {
      by_id = λ j r found. elim (Bool-cases (o.identity.workspace_id == j)) [
        | inl same ↦ absurd (
            never_there (
              sym (lookup-pop_self o.identity.workspace_id b.records)
              ∙ ap (λ x. lookup x (pop o.identity.workspace_id b.records)) (eq→path _ j same)
              ∙ found))
        | inr other ↦
            let old = sym (lookup-pop_other o.identity.workspace_id j b.records other) ∙ found in
            let (named, indexed, path) = h.by_id j r old in
            (
              named,
              lookup-pop_other o.identity.run_id r.identity.run_id b.run_index
                    (other_run j r other indexed)
                  ∙ indexed,
              path,
            )
      ];
      by_run = λ k j found. elim (Bool-cases (o.identity.run_id == k)) [
        | inl same ↦ absurd (
            never_there (
              sym (lookup-pop_self o.identity.run_id b.run_index)
              ∙ ap (λ x. lookup x (pop o.identity.run_id b.run_index)) (eq→path _ k same)
              ∙ found))
        | inr other ↦
            let old = sym (lookup-pop_other o.identity.run_id k b.run_index other) ∙ found in
            let (r, present, of_run) = h.by_run k j old in
            (
              r,
              lookup-pop_other o.identity.workspace_id j b.records
                    (other_id k j r other present of_run)
                  ∙ present,
              of_run,
            )
      ];
    }
