-- ===== src/Dispatch/Honest.antt =====
-- Whatever the server answers, a job becomes done only if its result has been written.
use mathlib.Core.Option
use pgquarry.Base.{
  ℕ, String, ◌≡◌, ◌⊎◌, inl, inr, refl, ap, true, false, Option, none, some, arith, Result, ok, err,
  Exec, value_or,
}
use pgquarry.Database.{JobRow, done}
use pgquarry.Database.Rows.{row, heads, Wrote}
use pgquarry.Store.{ClaimedJob, mark_done, mark_error}
use pgquarry.Store.Connection.{Env, Session}
use pgquarry.Store.Effects.{
  Frame, Frame-trans, Updated, unless, returned, mark_done-Updated, mark_error-Updated,
}
use pgquarry.Store.UserTables.{WroteBack}
use pgquarry.Watch.{WatchCache}
use pgquarry.Dispatch.{finished, finish_write}

-- The result of the job was written: into the row itself where the job has no source table (the
-- column is read by `got`), else by a statement on a user table, for the row that the job names.
pub data IsDelivered (env : Env) (got : JobRow → Option String) (job : ClaimedJob) (value : String)
    (r : JobRow) (s : Session) : Type 0 where
  ad_hoc : job.source_table ≡ none → got r ≡ some value → IsDelivered env got job value r s
  mapped :
      (source sql : String)
      → job.source_table ≡ some source
      → Wrote
          (record { sql = sql; value = value; row_id = value_or job.source_id env.unset_id })
          s.db.writes
      → IsDelivered env got job value r s

-- Going from `s` to `t` only the row of the job has changed, and if it is done it was so before, or
-- the result has been written.
pub record IsHonest (env : Env) (got : JobRow → Option String) (job : ClaimedJob) (value : String)
    (s t : Session) : Type 0 where
  pub frame : Frame job.id s t
  pub written :
      (r : JobRow)
      → row job.id t.db.jobs ≡ some r
      → r.status ≡ done
      → (row job.id s.db.jobs ≡ some r) ⊎ IsDelivered env got job value r t

module _ (env : Env) (got : JobRow → Option String) (job : ClaimedJob) (value : String) where
  -- A call of `mark_error` never makes a job done.
  pub mark_error-IsHonest :
      (message : String) (s : Session)
      → IsHonest env got job value s (mark_error env job.id message s)
  mark_error-IsHonest message s =
      let u = mark_error-Updated env job.id s message in
      record { frame = u.frame; written = λ r e d. inl (ground (arith, e, d, u.own)) }

  IsHonest-then_error :
      (message : String) (s t : Session)
      → Frame job.id s t
      → row job.id t.db.jobs ≡ row job.id s.db.jobs
      → IsHonest env got job value s (mark_error env job.id message t)
  IsHonest-then_error message s t f e =
      let h = mark_error-IsHonest message t in
      record {
        frame = Frame-trans job.id s t _ f h.frame;
        written =
            λ r e' d. inl (ground (arith, e, e', d, (mark_error-Updated env job.id t message).own));
      }

  -- A write into the row of the job, as `finish_write` runs it.
  module _ (set : ℕ → JobRow → JobRow) (write : Exec Session (Unit {0}))
      (sets : (n : ℕ) (r : JobRow) → got (set n r) ≡ some value)
      (updated : (s : Session)
        → Updated (env.fault s.sent) job.id (set (env.now s.sent)) s (write s).1)
      (answered : (s : Session) → returned (write s).0 ≡ unless (env.fault s.sent) false true)
      (no_table : job.source_table ≡ none) where
    got_of_map :
        (n : ℕ) (r : JobRow) (o : Option JobRow)
        → Option.map (set n) o ≡ some r
        → got r ≡ some value
    got_of_map n r none e = cc
    got_of_map n r (some r₀) e = ground (arith, e, sets n r₀)

    in_row : (s : Session) → returned (write s).0 ≡ true → IsHonest env got job value s (write s).1
    in_row s h = record {
      frame = (updated s).frame;
      written = λ r e d. inr (
          ad_hoc no_table (
            got_of_map (env.now s.sent) r (row job.id s.db.jobs)
              (ground (arith, e, h, answered s, (updated s).own))));
    }

    not_in_row :
        (s : Session)
        → returned (write s).0 ≡ false
        → row job.id (write s).1.db.jobs ≡ row job.id s.db.jobs
    not_in_row s h = ground (arith, answered s, (updated s).own)

    pub finish_ad_hoc-IsHonest :
        (written : ℕ) (w : WatchCache)
        → IsHonest env got job value w.session
            (finish_write env job written false write w).1.session
    unfolding finish_write
    finish_ad_hoc-IsHonest written w = of_result (write w.session).0 refl
      where
        of_result :
            (r : Result (Unit {0}))
            → (write w.session).0 ≡ r
            → IsHonest env got job value w.session
                (finished env job written false r (write w.session).1 w).1.session
        of_result (ok u) e = in_row w.session (ap returned e)
        of_result (err m) e =
            IsHonest-then_error m w.session (write w.session).1 (updated w.session).frame
              (not_in_row w.session (ap returned e))

  -- A write into a user table, as `finish_write` runs it.
  module _ (source : String) (write : Exec Session (Unit {0}))
      (wrote : (s : Session)
        → WroteBack
            (env.fault s.sent)
            value
            (value_or job.source_id env.unset_id)
            s
            (write s).1
            (write s).0)
      (has_table : job.source_table ≡ some source) where
    mapped_Frame : (s : Session) → Frame job.id s (write s).1
    mapped_Frame s = record {
      others = λ i h. rw (wrote s).jobs;
      grows = (wrote s).grows;
      watched = (wrote s).watched;
      heads = ap heads (wrote s).jobs;
    }

    then_done :
        (s : Session)
        → returned (write s).0 ≡ true
        → IsHonest env got job value s (mark_done env job.id (write s).1)
    then_done s h =
        let u = mark_done-Updated env job.id (write s).1 in
        let (sql, x) = (wrote s).written h in
        record {
          frame = Frame-trans job.id s (write s).1 _ (mapped_Frame s) u.frame;
          written = λ r e d. inr (mapped source sql has_table (u.frame.grows _ x));
        }

    pub finish_mapped-IsHonest :
        (written : ℕ) (w : WatchCache)
        → IsHonest env got job value w.session (finish_write env job written true write w).1.session
    unfolding finish_write
    finish_mapped-IsHonest written w = of_result (write w.session).0 refl
      where
        of_result :
            (r : Result (Unit {0}))
            → (write w.session).0 ≡ r
            → IsHonest env got job value w.session
                (finished env job written true r (write w.session).1 w).1.session
        of_result (ok u) e = then_done w.session (ap returned e)
        of_result (err m) e =
            IsHonest-then_error m w.session (write w.session).1 (mapped_Frame w.session)
              (rw (wrote w.session).jobs)
