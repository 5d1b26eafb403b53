-- ===== src/Store/UserTables.antt =====
-- What the two writes into user tables do, whatever the server answers.
use pgquarry.Base.{
  String, ℤ, ◌≡◌, true, false, Option, none, some, List, arith, if◌then◌else◌, Result,
}
use pgquarry.Config.{TableMapping, same_table}
use pgquarry.Database.{Write, write_user_table}
use pgquarry.Database.Rows.{Wrote, Wrote-append, Wrote-last}
use pgquarry.Store.{cached_sql, write_back, write_back_text}
use pgquarry.Store.Connection.{Env, Session, statement, failing_with}
use pgquarry.Store.Effects.{unless, returned}
use pgquarry.Store.Literal.{Float, vector_literal}
use pgquarry.Writeback.{
  build_update_sql, build_upsert_sql, build_update_sql_text, build_upsert_sql_text,
}

-- What a write into a user table does: the rows of pgquarry.jobs stay, and if the call returns then
-- `value` was written for the row `i`.
pub record WroteBack (fault : Option String) (value : String) (i : ℤ) (s t : Session)
    (r : Result (Unit {0})) : Type 0 where
  pub answered : returned r ≡ unless fault false true
  pub jobs : t.db.jobs ≡ s.db.jobs
  pub watched : t.db.watched ≡ s.db.watched
  pub grows : (x : Write) → Wrote x s.db.writes → Wrote x t.db.writes
  pub written :
      returned r ≡ true
      → (sql : String) × Wrote (record { sql = sql; value = value; row_id = i }) t.db.writes

WroteBack-of_db :
    (sql value : String) (i : ℤ) (s t : Session) (r : Result (Unit {0})) (f : Option String)
    → t.db ≡ unless f s.db (write_user_table sql value i s.db)
    → returned r ≡ unless f false true
    → WroteBack f value i s t r
unfolding write_user_table
WroteBack-of_db sql value i s t r none e o = record {
  answered = o;
  jobs = rw e;
  watched = rw e;
  grows = λ x h. rw e (Wrote-append x s.db.writes _ h);
  written = λ h. (sql, rw e (Wrote-last _ s.db.writes));
}
WroteBack-of_db sql value i s t r (some m) e o = record {
  answered = o;
  jobs = rw e;
  watched = rw e;
  grows = λ x h. rw e h;
  written = λ h. cc;
}

pub cached_sql_db :
    (m : TableMapping) (built : String) (s : Session)
    → ((cached_sql m built s).1.db ≡ s.db) × ((cached_sql m built s).1.sent ≡ s.sent)
unfolding cached_sql
cached_sql_db m built s = ground arith

module _ (env : Env) (m : TableMapping) (i : ℤ) (s : Session) where
  pub write_back-WroteBack :
      (embedding : List Float)
      → WroteBack
          (env.fault s.sent)
          (vector_literal env.print_float embedding)
          i
          s
          (write_back env m i embedding s).1
          (write_back env m i embedding s).0
  unfolding write_back failing_with statement
  write_back-WroteBack embedding =
      let built = if same_table m then build_update_sql m else build_upsert_sql m in
      let c = cached_sql_db m built s in
      WroteBack-of_db (cached_sql m built s).0 _ i s _ _ (env.fault s.sent) (ground (arith, c))
        (ground (arith, c))

  pub write_back_text-WroteBack :
      (text : String)
      → WroteBack
          (env.fault s.sent)
          text
          i
          s
          (write_back_text env m i text s).1
          (write_back_text env m i text s).0
  unfolding write_back_text failing_with statement
  write_back_text-WroteBack text =
      let built = if same_table m then build_update_sql_text m else build_upsert_sql_text m in
      let c = cached_sql_db m built s in
      WroteBack-of_db (cached_sql m built s).0 _ i s _ _ (env.fault s.sent) (ground (arith, c))
        (ground (arith, c))
