-- ===== src/Adapters/SqliteStateStore/Database.antt =====
-- The two tables of src/alicerce/adapters/local/sqlite_state_store.py, the SQL statements that the
-- store executes on them with the constraints of its schema, and its transactions.
use alicerce.Prelude.{
  ℕ, ◌+◌, ◌≡◌, ap, Bool, true, false, ◌&&◌, Option, none, some, List, [], ◌∷◌, ◌==◌, nat_eq,
  list_eq, Text, Bytes, sorted, pair_order, nat_lt_order, list_order, if◌then◌else◌,
}
use alicerce.Errors.{Exn, Result, ok, err, sqlite_error, state_store_error, StateStoreErrorCause}
use alicerce.Domain.Lifecycle.{is_none}

-- `alicerce_runs`
pub record RunRow : Type 0 where
  pub run_id : Text
  pub identity : Bytes
  pub checkpoint : Bytes

-- `alicerce_transitions`
pub record TransitionRow : Type 0 where
  pub run_id : Text
  pub revision : ℕ
  pub transition : Bytes

pub record Database : Type 0 where
  pub runs : List RunRow
  pub transitions : List TransitionRow

-- A method on the database: what it wrote before it raised is written until it is rolled back.
abbrev pub Tx {ℓ} : Type ℓ → Type ℓ
Tx A = Database → Result A × Database

abbrev pub continue {ℓ κ} : {A : Type ℓ} {B : Type κ} → Result A → (A → Tx B) → Tx B
continue (ok a) f db = f a db
continue (err e) f db = (err e, db)

infixl 5 ◌>>=◌ ◌>>◌
abbrev pub ◌>>=◌ {ℓ κ} : {A : Type ℓ} {B : Type κ} → Tx A → (A → Tx B) → Tx B
◌>>=◌ m f db = let (r, db') = m db in continue r f db'

abbrev pub ◌>>◌ {ℓ κ} : {A : Type ℓ} {B : Type κ} → Tx A → Tx B → Tx B
m >> k = m >>= λ _. k

abbrev pub lift {ℓ} : {A : Type ℓ} → Result A → Tx A
lift r db = (r, db)

abbrev pub gets {ℓ} : {A : Type ℓ} → (Database → Result A) → Tx A
gets f db = (f db, db)

-- The handlers of every method: a sqlite3.Error becomes STORAGE_FAILURE, all else passes.
unfoldable pub storage_failure : Exn → Exn
storage_failure sqlite_error = state_store_error StateStoreErrorCause.storage_failure
storage_failure e = e

-- COMMIT, or ROLLBACK to the database that the transaction began with.
abbrev pub settle {ℓ} : {A : Type ℓ} → Database → Result A → Database → Result A × Database
settle before (ok a) after = (ok a, after)
settle before (err e) after = (err (storage_failure e), before)

-- BEGIN IMMEDIATE … COMMIT, with ROLLBACK on an exception.
unfoldable pub transaction {ℓ} : {A : Type ℓ} → Tx A → Tx A
transaction body db = let (r, db') = body db in settle db r db'

-- SELECT … FROM alicerce_runs WHERE run_id = ?
unfoldable pub select_run : Text → List RunRow → Option RunRow
select_run key [] = none
select_run key (row ∷ rows) = if row.run_id == key then some row else select_run key rows

unfoldable pub rows_of : Text → List TransitionRow → List (ℕ × Bytes)
rows_of key [] = []
rows_of key (row ∷ rows) =
    let rest = rows_of key rows in
    if row.run_id == key then (row.revision, row.transition) ∷ rest else rest

-- SELECT revision, transition FROM alicerce_transitions WHERE run_id = ? ORDER BY revision
unfoldable pub select_transitions : Text → List TransitionRow → List (ℕ × Bytes)
unfolding rows_of
select_transitions key rows = sorted (rows_of key rows)

-- INSERT INTO alicerce_runs: `run_id` is the primary key.
unfoldable pub insert_run : RunRow → Tx (Unit {0})
unfolding select_run
insert_run row db =
    if is_none (select_run row.run_id db.runs)
    then (ok tt, record db { runs = row ∷ db.runs })
    else (err sqlite_error, db)

unfoldable pub has_revision : Text → ℕ → List TransitionRow → Bool
has_revision key n [] = false
has_revision key n (row ∷ rows) =
    let rest = has_revision key n rows in
    if row.run_id == key && row.revision == n then true else rest

-- INSERT INTO alicerce_transitions: primary key, CHECK(revision > 0) and foreign key.
unfoldable pub insert_transition : TransitionRow → Tx (Unit {0})
unfolding has_revision select_run
insert_transition row db =
    if has_revision row.run_id row.revision db.transitions
    then (err sqlite_error, db)
    else if row.revision == 0
    then (err sqlite_error, db)
    else if is_none (select_run row.run_id db.runs)
    then (err sqlite_error, db)
    else (ok tt, record db { transitions = row ∷ db.transitions })

-- One row under UPDATE … SET checkpoint = ? WHERE run_id = ? AND checkpoint = ?
unfoldable pub matches_row : Text → Bytes → RunRow → Bool
matches_row key old row = row.run_id == key && row.checkpoint == old

unfoldable pub set_checkpoint : Bytes → Text → Bytes → List RunRow → List RunRow
unfolding matches_row
set_checkpoint new key old [] = []
set_checkpoint new key old (row ∷ rows) =
    (if matches_row key old row then record row { checkpoint = new } else row)
    ∷ set_checkpoint new key old rows

unfoldable pub count_rows : Text → Bytes → List RunRow → ℕ
unfolding matches_row
count_rows key old [] = 0
count_rows key old (row ∷ rows) =
    (if matches_row key old row then 1 else 0) + count_rows key old rows

-- The UPDATE, with the cursor's `rowcount`.
unfoldable pub update_checkpoint : Bytes → Text → Bytes → Tx ℕ
unfolding set_checkpoint count_rows
update_checkpoint new key old db =
    (ok (count_rows key old db.runs), record db { runs = set_checkpoint new key old db.runs })

module _ {ℓ} {A : Type ℓ} (body : Tx A) (db : Database) where
  pub transaction-commit :
      {a : A} {db' : Database} → body db ≡ (ok a, db') → transaction body db ≡ (ok a, db')
  unfolding transaction
  transaction-commit h = ap (λ (out : Result A × Database). settle db out.0 out.1) h

  -- Whatever the body has written, an exception leaves the database as it was.
  pub transaction-rollback :
      (e : Exn) → (body db).0 ≡ err e → transaction body db ≡ (err (storage_failure e), db)
  unfolding transaction
  transaction-rollback e h = rw (h, transaction)

-- A step of a method that went well.
pub bind-runs {ℓ κ} :
    {A : Type ℓ} {B : Type κ} (m : Tx A) (f : A → Tx B) (db : Database) {a : A} {db' : Database}
    → m db ≡ (ok a, db')
    → (m >>= f) db ≡ f a db'
bind-runs m f db h = ap (λ out. continue out.0 f out.1) h

-- A step that raised ends the method.
pub bind-raises {ℓ κ} :
    {A : Type ℓ} {B : Type κ} (m : Tx A) (f : A → Tx B) (db : Database) {e : Exn} {db' : Database}
    → m db ≡ (err e, db')
    → (m >>= f) db ≡ (err e, db')
bind-raises m f db h = ap (λ out. continue out.0 f out.1) h
