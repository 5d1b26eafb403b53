-- ===== src/Store.antt =====
-- src/job_store.cpp: the calls of `JobStore`. A call runs statements of the session, and returns or
-- throws. The server is a parameter: which statements fail, the time of each, the rows that other
-- sessions hold, and how Postgres reads an interval. Postgres sends numbers as decimal text, which
-- is read back with `atoll` and `atoi`; the model carries the numbers.
pub mod Connection
pub mod Handle
pub mod Literal
pub mod Chosen
pub mod Cached
pub mod Effects
pub mod UserTables
pub mod Claim
pub mod Returned
pub mod Purge
use Prim.Native.String.{◌++◌}
use pgquarry.Base.{
  ℕ, suc, String, ℤ, Bool, true, false, Option, none, some, List, [], ◌∷◌, ◌++◌ as ◌++ₗ◌, map,
  str_eq, if◌then◌else◌, Result, ok, err, Exec, pure, throw, continue, ◌>>=◌, ◌>>◌, length,
}
use pgquarry.Config.{TableMapping, same_table}
use pgquarry.Job.{JobType, job_type_from_string}
use pgquarry.Database.{
  Database, JobRow, Status, purgeable, select_rows, claim_pending_rows, mark_done_row,
  mark_error_row, write_result_row, write_result_text_row, notify, write_user_table,
  select_watched_tables, purge_rows,
}
use pgquarry.Writeback.{
  build_update_sql, build_upsert_sql, build_update_sql_text, build_upsert_sql_text,
}
use Connection.{Env, Session, statement, failing_with, quietly}
use Literal.{Float, vector_literal}

pub record ClaimedJob : Type 0 where
  pub id : ℕ
  pub source_table : Option String
  pub source_id : Option ℤ
  pub source_column : Option String
  pub input_text : String
  pub job_type : JobType
  pub max_tokens : Option ℤ

unfoldable pub claimed_job : JobRow → Result ClaimedJob
claimed_job r = elim (job_type_from_string r.job_type) [
  | err e ↦ err e
  | ok t ↦ ok (record {
    id = r.id;
    source_table = r.source_table;
    source_id = r.source_id;
    source_column = r.source_column;
    input_text = r.input_text;
    job_type = t;
    max_tokens = r.max_tokens;
  })
]

abbrev pub cons_job : Result ClaimedJob → Result (List ClaimedJob) → Result (List ClaimedJob)
cons_job (err e) jobs = err e
cons_job (ok job) (err e) = err e
cons_job (ok job) (ok jobs) = ok (job ∷ jobs)

-- The loop over the returned rows.
unfoldable pub claimed_jobs : List JobRow → Result (List ClaimedJob)
claimed_jobs [] = ok []
claimed_jobs (r ∷ rows) = cons_job (claimed_job r) (claimed_jobs rows)

module _ (env : Env) where
  unfoldable pub claim_pending : ℕ → Exec Session (List ClaimedJob)
  claim_pending limit = do
    rows ←
        failing_with "JobStore: claim_pending failed: "
          (statement env (λ n. claim_pending_rows (env.rank n) (env.locked n) limit (env.now n)))
    λ s. (claimed_jobs rows, s)

-- `source + "\x1f" + job_type`.
unfoldable pub cache_key : TableMapping → String
cache_key m = m.source ++ ("\u{1f}" ++ m.job_type)

abbrev pub find_sql : String → List (String × String) → Option String
find_sql key [] = none
find_sql key ((k, sql) ∷ entries) = if str_eq k key then some sql else find_sql key entries

-- The statement in the cache, or else the one that was built, which is then kept.
unfoldable pub cached_sql : TableMapping → String → Session → String × Session
unfolding cache_key
cached_sql m built s = elim (find_sql (cache_key m) s.sql_cache) [
  | some sql ↦ (sql, s)
  | none ↦ (built, record s { sql_cache = (cache_key m, built) ∷ s.sql_cache })
]

abbrev pub with_unit : (Database → Database) → Database → Database × Unit {0}
with_unit f db = (f db, tt)

module _ (env : Env) where
  unfoldable pub write_back : TableMapping → ℤ → List Float → Exec Session (Unit {0})
  write_back m source_id embedding s =
      let (sql, s') =
        cached_sql m (if same_table m then build_update_sql m else build_upsert_sql m) s in
      failing_with ("JobStore: write_back failed for " ++ (m.target_table ++ ": "))
        (statement env (λ n.
          with_unit (write_user_table sql (vector_literal env.print_float embedding) source_id)))
        s'

  unfoldable pub write_back_text : TableMapping → ℤ → String → Exec Session (Unit {0})
  write_back_text m source_id text s =
      let (sql, s') =
        cached_sql m (if same_table m then build_update_sql_text m else build_upsert_sql_text m)
          s in
      failing_with ("JobStore: write_back_text failed for " ++ (m.target_table ++ ": "))
        (statement env (λ n. with_unit (write_user_table sql text source_id))) s'

  unfoldable pub write_ad_hoc_result : ℕ → List Float → Exec Session (Unit {0})
  write_ad_hoc_result i embedding =
      failing_with ("JobStore: write_ad_hoc_result failed for job " ++ (env.print_id i ++ ": ")) (
        statement env (λ n.
          with_unit (write_result_row i (vector_literal env.print_float embedding) (env.now n))))

  unfoldable pub write_ad_hoc_result_text : ℕ → String → Exec Session (Unit {0})
  write_ad_hoc_result_text i text =
      failing_with
        ("JobStore: write_ad_hoc_result_text failed for job " ++ (env.print_id i ++ ": "))
        (statement env (λ n. with_unit (write_result_text_row i text (env.now n))))

  -- A failure of these three is logged and not thrown.
  unfoldable pub mark_done : ℕ → Session → Session
  mark_done i = quietly (statement env (λ n. with_unit (mark_done_row i (env.now n))))

  unfoldable pub mark_error : ℕ → String → Session → Session
  mark_error i message =
      quietly (statement env (λ n. with_unit (mark_error_row i message (env.now n))))

  unfoldable pub notify_jobs : ℕ → Session → Session
  notify_jobs count = quietly (statement env (λ n. with_unit (notify count)))

-- The loop over the rows of pgquarry.watched_tables, by the number of the column.
unfoldable pub to_mapping :
    String × String × String × String × String × String × String → TableMapping
to_mapping row = record {
  source = row.0;
  job_type = row.1;
  source_column = row.3;
  id_column = row.2;
  target_table = row.4;
  target_column = row.5;
  target_id_column = row.6;
}

module _ (env : Env) where
  unfoldable pub load_watched_tables : Exec Session (List TableMapping)
  load_watched_tables = do
    rows ←
        failing_with "JobStore: load_watched_tables failed: "
          (statement env (λ n db. (db, select_watched_tables db)))
    pure (map to_mapping rows)

  -- `$1::interval`, which Postgres refuses where the text is no interval.
  abbrev pub with_interval : {A : Type 0} → String → (ℕ → Exec Session A) → Exec Session A
  with_interval text run s = elim (env.interval_length text) [
    | none ↦ (err env.bad_interval, record s { sent = suc s.sent })
    | some age ↦ run age s
  ]

  -- The rows that `purge_verbose` logs.
  log_candidates : List JobRow → Session → Session
  log_candidates [] s = s
  log_candidates (r ∷ rows) s =
      log_candidates rows
        (record s { purge_log = s.purge_log ++ₗ (r.id, r.status, r.created_at) ∷ [] })

  purge_verbosely : Bool → String → Exec Session (Unit {0})
  unfolding log_candidates
  purge_verbosely false text = pure tt
  purge_verbosely true text = do
    rows ← failing_with "JobStore: purge_done candidate select failed: " (
        with_interval text
          (λ age. statement env (λ n db. (db, select_rows (purgeable age (env.now n)) db.jobs))))
    λ s. (ok tt, log_candidates rows s)

  -- The number that `PQcmdTuples` reports is that of the rows deleted.
  unfoldable pub purge_done : String → Bool → Exec Session ℕ
  unfolding purge_verbosely
  purge_done text verbose = do
    purge_verbosely verbose text
    failing_with "JobStore: purge_done failed: " (
        with_interval text (λ age. statement env (λ n db. (
          purge_rows age (env.now n) db,
          length (select_rows (purgeable age (env.now n)) db.jobs),
        ))))
