-- ===== src/Dispatch/Settled.antt =====
-- One round of either loop, while the server answers: how the row of the job ends.
use pgquarry.Base.{
  ℕ, ◌+◌, String, ℤ, ◌≡◌, refl, ap, ◌∙◌, true, false, Option, none, some, arith, Result, ok, err,
  Exec,
}
use pgquarry.Database.{JobRow, Status, done, error}
use pgquarry.Database.Rows.{row}
use pgquarry.Store.{ClaimedJob}
use pgquarry.Store.Connection.{Env, Session}
use pgquarry.Store.Effects.{
  Updated, unless, returned, report, mark_done-Updated, mark_error-Updated,
}
use pgquarry.Store.UserTables.{WroteBack}
use pgquarry.Watch.{WatchCache}
use pgquarry.Watch.Refines.{NoFaults, InSync}
use pgquarry.Dispatch.{Written, fail_job, finished, finish_write}

-- How a job ends: done, or in error with a message.
abbrev pub outcome : Option String → Status × Option String
outcome none = (done, none)
outcome (some message) = (error, some message)

-- What a job adds to the number of jobs written.
abbrev pub points : Option String → ℕ
points none = 1
points (some message) = 0

-- The job has a row.
abbrev pub HasRow : ClaimedJob → Session → Type 0
HasRow job s = (r : JobRow) × (row job.id s.db.jobs ≡ some r)

-- The job has ended with a verdict, is counted, and the cache has stayed in step.
pub record IsSettled (job : ClaimedJob) (verdict : Option String) (written : ℕ) (w : WatchCache)
    (result : Written) : Type 0 where
  pub reported : report job.id result.1.session ≡ some (outcome verdict)
  pub counted : result.0 ≡ written + points verdict
  pub in_sync : InSync result.1
  pub watched : result.1.session.db.watched ≡ w.session.db.watched

pub InSync-of_session :
    (w : WatchCache) (s : Session)
    → s.db.watched ≡ w.session.db.watched
    → InSync w
    → InSync (record w { session = s })
InSync-of_session w s e v = record {
  hit = λ source kind m k h. rw e (v.hit source kind m k h);
  miss = λ source kind k r h. rw e (v.miss source kind k r h);
}

module _ (env : Env) (n : NoFaults env) (job : ClaimedJob) (written : ℕ) where
  pub fail_job-IsSettled :
      (message : String) (w : WatchCache)
      → HasRow job w.session
      → InSync w
      → IsSettled job (some message) written w (written, fail_job env job message w)
  unfolding fail_job
  fail_job-IsSettled message w (r, e) v =
      let u = mark_error-Updated env job.id w.session message in
      record {
        reported = ground (arith, e, u.own, n w.session.sent);
        counted = omega arith;
        in_sync = InSync-of_session w _ u.frame.watched v;
        watched = u.frame.watched;
      }

  -- A write that returned, as `finish_write` ends it.
  module _ (set : ℕ → JobRow → JobRow) (write : Exec Session (Unit {0}))
      (sets : (t : ℕ) (r : JobRow) → ((set t r).status ≡ done) × ((set t r).error_text ≡ none))
      (updated : (s : Session)
        → Updated (env.fault s.sent) job.id (set (env.now s.sent)) s (write s).1)
      (answered : (s : Session) → returned (write s).0 ≡ unless (env.fault s.sent) false true) where
    pub finish_ad_hoc-IsSettled :
        (w : WatchCache)
        → HasRow job w.session
        → InSync w
        → IsSettled job none written w (finish_write env job written false write w)
    unfolding finish_write finished
    finish_ad_hoc-IsSettled w (r, e) v = of_result (write w.session).0 refl
      where
        of_result :
            (o : Result (Unit {0}))
            → (write w.session).0 ≡ o
            → IsSettled job none written w (finished env job written false o (write w.session).1 w)
        of_result (ok u) h =
            let p = updated w.session in
            record {
              reported =
                  ground (arith, e, p.own, n w.session.sent, sets (env.now w.session.sent) r);
              counted = omega arith;
              in_sync = InSync-of_session w _ p.frame.watched v;
              watched = p.frame.watched;
            }
        of_result (err m) h =
            absurd (ground (arith, ap returned h, answered w.session, n w.session.sent))

  pub finish_mapped-IsSettled :
      (value : String) (i : ℤ) (write : Exec Session (Unit {0}))
      → ((s : Session) → WroteBack (env.fault s.sent) value i s (write s).1 (write s).0)
      → (w : WatchCache) → HasRow job w.session
      → InSync w
      → IsSettled job none written w (finish_write env job written true write w)
  unfolding finish_write finished
  finish_mapped-IsSettled value i write wrote w (r, e) v = of_result (write w.session).0 refl
    where
      of_result :
          (o : Result (Unit {0}))
          → (write w.session).0 ≡ o
          → IsSettled job none written w (finished env job written true o (write w.session).1 w)
      of_result (ok u) h =
          let b = wrote w.session in
          let p = mark_done-Updated env job.id (write w.session).1 in
          record {
            reported = ground (arith, e, b.jobs, p.own, n (write w.session).1.sent);
            counted = omega arith;
            in_sync = InSync-of_session w _ (p.frame.watched ∙ b.watched) v;
            watched = p.frame.watched ∙ b.watched;
          }
      of_result (err m) h =
          absurd (ground (arith, ap returned h, (wrote w.session).answered, n w.session.sent))
