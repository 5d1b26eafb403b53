-- ===== src/Database.antt =====
-- The tables of pgquarry and the statements of src/job_sql.hpp on them, each of which Postgres runs
-- as one transaction. The rows of `jobs` stand in the order of their ids, which are given out in
-- rising order; a statement on a user table is recorded with its parameters.
pub mod Rows
pub mod Claims
use pgquarry.Base.{
  leb, ℕ, zero, suc, ◌+◌, String, ℤ, Bool, true, false, not, ◌&&◌, ◌||◌, Option, none, some, List,
  [], ◌∷◌, ◌++◌, map, ltb, ◌==◌, if◌then◌else◌,
}

pub data Status : Type 0 where
  pending processing done error : Status

-- A row of pgquarry.jobs.
pub record JobRow : Type 0 where
  pub id : ℕ
  pub status : Status
  pub job_type : String
  pub source_table : Option String
  pub source_id : Option ℤ
  pub source_column : Option String
  pub input_text : String
  pub max_tokens : Option ℤ
  pub result : Option String
  pub result_text : Option String
  pub error_text : Option String
  pub created_at : ℕ
  pub updated_at : ℕ

-- A row of pgquarry.watched_tables, in the order of its columns.
pub record WatchedRow : Type 0 where
  pub source_table : String
  pub job_type : String
  pub id_column : String
  pub source_column : String
  pub target_table : String
  pub target_column : String
  pub target_id_column : String

-- A statement executed on a user table: its text, $1 and $2.
pub record Write : Type 0 where
  pub sql : String
  pub value : String
  pub row_id : ℤ

pub record Database : Type 0 where
  pub jobs : List JobRow
  pub watched : List WatchedRow
  pub writes : List Write
  pub notified : List ℕ

abbrev pub is_pending : Status → Bool
is_pending pending = true
is_pending _ = false

abbrev pub is_done : Status → Bool
is_done done = true
is_done _ = false

-- UPDATE pgquarry.jobs SET … WHERE …
unfoldable pub update_rows : (JobRow → Bool) → (JobRow → JobRow) → List JobRow → List JobRow
update_rows here set [] = []
update_rows here set (r ∷ rows) = (if here r then set r else r) ∷ update_rows here set rows

-- DELETE FROM pgquarry.jobs WHERE …
unfoldable pub delete_rows : (JobRow → Bool) → List JobRow → List JobRow
delete_rows here [] = []
delete_rows here (r ∷ rows) = let rest = delete_rows here rows in if here r then rest else r ∷ rest

-- SELECT … FROM pgquarry.jobs WHERE …, and the rows that RETURNING gives.
unfoldable pub select_rows : (JobRow → Bool) → List JobRow → List JobRow
select_rows here [] = []
select_rows here (r ∷ rows) = let rest = select_rows here rows in if here r then r ∷ rest else rest

abbrev pub update_jobs : (JobRow → Bool) → (JobRow → JobRow) → Database → Database
update_jobs here set db = record db { jobs = update_rows here set db.jobs }

abbrev pub contains : List ℕ → ℕ → Bool
contains [] i = false
contains (j ∷ ids) i = j == i || contains ids i

-- SELECT id … WHERE status = 'pending' ORDER BY id FOR UPDATE SKIP LOCKED LIMIT $1. `locked` says
-- which rows other sessions hold.
unfoldable pub select_pending : (ℕ → Bool) → ℕ → List JobRow → List ℕ
select_pending locked n [] = []
select_pending locked zero (r ∷ rows) = []
select_pending locked (suc n) (r ∷ rows) =
    let with_r = r.id ∷ select_pending locked n rows in
    let without_r = select_pending locked (suc n) rows in
    if is_pending r.status && not (locked r.id) then with_r else without_r

-- RETURNING gives the rows in no particular order: that of a rank that the server gives their ids.
unfoldable pub insert_ranked : (ℕ → ℕ) → JobRow → List JobRow → List JobRow
insert_ranked rank r [] = r ∷ []
insert_ranked rank r (x ∷ rows) =
    let rest = insert_ranked rank r rows in
    if leb (rank r.id) (rank x.id) then r ∷ x ∷ rows else x ∷ rest

unfoldable pub returning : (ℕ → ℕ) → List JobRow → List JobRow
returning rank [] = []
returning rank (r ∷ rows) = insert_ranked rank r (returning rank rows)

-- `kClaimPending`: the rows as they are afterwards, and the rows returned.
unfoldable pub claim_pending_rows : (ℕ → ℕ) → (ℕ → Bool) → ℕ → ℕ → Database → Database × List JobRow
claim_pending_rows rank locked limit now db =
    let ids = select_pending locked limit db.jobs in
    let claim = λ (r : JobRow). record r { status = processing; updated_at = now } in
    let rows = update_rows (λ r. contains ids r.id) claim db.jobs in
    (record db { jobs = rows }, returning rank (select_rows (λ r. contains ids r.id) rows))

abbrev pub has_id : ℕ → JobRow → Bool
has_id i r = r.id == i

-- `kMarkDone`.
unfoldable pub mark_done_row : ℕ → ℕ → Database → Database
mark_done_row i now =
    update_jobs (has_id i) (λ r. record r { status = done; error_text = none; updated_at = now })

-- `kMarkError`.
unfoldable pub mark_error_row : ℕ → String → ℕ → Database → Database
mark_error_row i message now =
    update_jobs (has_id i)
      (λ r. record r { status = error; error_text = some message; updated_at = now })

-- `kWriteAdHocResult`.
unfoldable pub write_result_row : ℕ → String → ℕ → Database → Database
write_result_row i value now =
    update_jobs (has_id i)
      (λ r. record r { status = done; error_text = none; result = some value; updated_at = now })

-- `kWriteAdHocResultText`.
unfoldable pub write_result_text_row : ℕ → String → ℕ → Database → Database
write_result_text_row i value now =
    update_jobs (has_id i) (λ r. record r {
      status = done;
      error_text = none;
      result_text = some value;
      updated_at = now;
    })

-- `kNotify`.
unfoldable pub notify : ℕ → Database → Database
notify n db = record db { notified = db.notified ++ n ∷ [] }

-- A statement on a user table.
unfoldable pub write_user_table : String → String → ℤ → Database → Database
write_user_table sql value i db = record db {
  writes = db.writes ++ (record { sql = sql; value = value; row_id = i }) ∷ [];
}

-- The columns of `kSelectWatchedTables`, in its order.
unfoldable pub select_watched_tables :
    Database → List (String × String × String × String × String × String × String)
select_watched_tables db =
    map
      (λ w. (
        w.source_table, w.job_type, w.id_column, w.source_column, w.target_table, w.target_column,
        w.target_id_column,
      ))
      db.watched

-- WHERE status = 'done' AND updated_at < now() - $1::interval
unfoldable pub purgeable : ℕ → ℕ → JobRow → Bool
purgeable age now r = is_done r.status && ltb (r.updated_at + age) now

-- `kPurgeDone`.
unfoldable pub purge_rows : ℕ → ℕ → Database → Database
purge_rows age now db = record db { jobs = delete_rows (purgeable age now) db.jobs }
