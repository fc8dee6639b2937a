-- ===== src/Adapters/SqliteStateStore/Tables.antt =====
-- What the statements read after each write to the tables.
use mathlib.Core.Logic.{◌≢◌}
use alicerce.Prelude.{
  ℕ, ◌<◌, ◌≡◌, refl, false, none, some, List, [], ◌∷◌, ◌++◌, ◌==◌, ==_iff, eq_self, ne→false,
  nat_eq, list_eq, Text, Bytes, Bool-cases, inl, inr, sorted, pair_order, nat_lt_order, list_order,
  All, All-mono, sorted-above, All-of_sorted, arith,
}
use alicerce.Adapters.SqliteStateStore.Database.{
  RunRow, TransitionRow, select_run, rows_of, select_transitions, has_revision, matches_row,
  set_checkpoint, count_rows,
}

-- No two rows have one key.
abbrev pub IsKeyed : List RunRow → Type 0
IsKeyed [] = Unit
IsKeyed (row ∷ rows) = (select_run row.run_id rows ≡ none) × IsKeyed rows

module _ (new : Bytes) (key : Text) (old : Bytes) where
  pub select_run-set_checkpoint_other :
      (j : Text) (rows : List RunRow)
      → key ≢ j
      → select_run j (set_checkpoint new key old rows) ≡ select_run j rows
  unfolding select_run set_checkpoint
  select_run-set_checkpoint_other j [] h = refl
  select_run-set_checkpoint_other j (row ∷ rows) h =
      ground (
        arith,
        ==_iff row.run_id key,
        ==_iff row.run_id j,
        select_run-set_checkpoint_other j rows h,
      )

  pub select_run-set_checkpoint_self :
      (rows : List RunRow) (found : RunRow)
      → select_run key rows ≡ some found
      → found.checkpoint ≡ old
      → select_run key (set_checkpoint new key old rows) ≡ some (record found { checkpoint = new })
  unfolding select_run set_checkpoint
  select_run-set_checkpoint_self [] found h e = cc
  select_run-set_checkpoint_self (row ∷ rows) found h e = ground (
    arith,
    ==_iff row.run_id key,
    ==_iff row.checkpoint old,
    select_run-set_checkpoint_self rows found,
  )

  select_run-set_checkpoint-none :
      (j : Text) (rows : List RunRow)
      → select_run j rows ≡ none
      → select_run j (set_checkpoint new key old rows) ≡ none
  unfolding select_run set_checkpoint
  select_run-set_checkpoint-none j [] h = refl
  select_run-set_checkpoint-none j (row ∷ rows) h =
      ground (arith, select_run-set_checkpoint-none j rows)

  pub set_checkpoint-IsKeyed :
      (rows : List RunRow) → IsKeyed rows → IsKeyed (set_checkpoint new key old rows)
  unfolding set_checkpoint
  set_checkpoint-IsKeyed [] h = tt
  set_checkpoint-IsKeyed (row ∷ rows) h = elim (Bool-cases (matches_row key old row)) [
    | inl hit ↦
        rw hit (select_run-set_checkpoint-none row.run_id rows h.0, set_checkpoint-IsKeyed rows h.1)
    | inr miss ↦
        rw miss
          (select_run-set_checkpoint-none row.run_id rows h.0, set_checkpoint-IsKeyed rows h.1)
  ]

  count_rows-absent :
      (rows : List RunRow) → select_run key rows ≡ none → count_rows key old rows ≡ 0
  unfolding select_run count_rows
  count_rows-absent [] h = refl
  count_rows-absent (row ∷ rows) h = ground (arith, count_rows-absent rows)

  pub count_rows-present :
      (rows : List RunRow) (found : RunRow)
      → IsKeyed rows
      → select_run key rows ≡ some found
      → found.checkpoint ≡ old
      → count_rows key old rows ≡ 1
  unfolding select_run count_rows
  count_rows-present [] found k h e = cc
  count_rows-present (row ∷ rows) found k h e = ground (
    arith,
    ==_iff row.run_id key,
    ==_iff row.checkpoint old,
    k.0,
    count_rows-absent rows,
    count_rows-present rows found k.1,
  )

module _ (key : Text) where
  pub rows_of-other :
      (row : TransitionRow) (rows : List TransitionRow)
      → row.run_id ≢ key
      → select_transitions key (row ∷ rows) ≡ select_transitions key rows
  unfolding select_transitions
  rows_of-other row rows h = rw (ne→false row.run_id key h)

  -- A row above all that the run has is read last.
  pub select_transitions-above :
      (n : ℕ) (b : Bytes) (rows : List TransitionRow)
      → All (λ (r : ℕ × Bytes). r.0 < n) (select_transitions key rows)
      → select_transitions key (record { run_id = key; revision = n; transition = b } ∷ rows)
        ≡ select_transitions key rows ++ (n, b) ∷ []
  unfolding select_transitions
  select_transitions-above n b rows h = rw (eq_self key) (
      sorted-above (n, b) (rows_of key rows)
        (All-mono (λ (r : ℕ × Bytes) (below : r.0 < n). ground arith) (sorted (rows_of key rows))
          h))

  has_revision-below :
      (n : ℕ) (rows : List TransitionRow)
      → All (λ (r : ℕ × Bytes). r.0 < n) (rows_of key rows)
      → has_revision key n rows ≡ false
  unfolding has_revision rows_of
  has_revision-below n [] h = refl
  has_revision-below n (row ∷ rows) h = elim (Bool-cases (row.run_id == key)) [
    | inl mine ↦
        let g : All (λ (r : ℕ × Bytes). r.0 < n)
            ((row.revision, row.transition) ∷ rows_of key rows) =
          rw mine at h in
        ground (arith, mine, g.0, ==_iff row.revision n, has_revision-below n rows g.1)
    | inr other ↦
        let g : All (λ (r : ℕ × Bytes). r.0 < n) (rows_of key rows) = rw other at h in
        ground (arith, other, has_revision-below n rows g)
  ]

  pub has_revision-above :
      (n : ℕ) (rows : List TransitionRow)
      → All (λ (r : ℕ × Bytes). r.0 < n) (select_transitions key rows)
      → has_revision key n rows ≡ false
  unfolding select_transitions
  has_revision-above n rows h =
      has_revision-below n rows (All-of_sorted (λ (r : ℕ × Bytes). r.0 < n) (rows_of key rows) h)
