-- ===== src/Store/Effects.antt =====
-- What each call of the store does to the rows of pgquarry.jobs, whatever the server answers.
use mathlib.Core.Option
use pgquarry.Base.{
  ℕ, String, ◌≡◌, ◌≢◌, refl, ap, ◌∙◌, Bool, true, false, Option, none, some, List, arith, Result,
  ok, err,
}
use pgquarry.Database.{
  JobRow, Status, done, error, Write, update_jobs, has_id, mark_done_row, mark_error_row,
  write_result_row, write_result_text_row,
}
use pgquarry.Database.Rows.{
  row, head, heads, heads-update_rows, row-update_ne, row-update_self, Wrote,
}
use pgquarry.Store.{write_ad_hoc_result, write_ad_hoc_result_text, mark_done, mark_error}
use pgquarry.Store.Connection.{Env, Session, statement, failing_with, quietly}
use pgquarry.Store.Literal.{Float, vector_literal}

-- From `s` to `t` no row changes but that of `j`, which keeps id and kind, no executed write is
-- forgotten, and the registered mappings stay.
pub record Frame (j : ℕ) (s t : Session) : Type 0 where
  pub others : (i : ℕ) → i ≢ j → row i t.db.jobs ≡ row i s.db.jobs
  pub grows : (x : Write) → Wrote x s.db.writes → Wrote x t.db.writes
  pub watched : t.db.watched ≡ s.db.watched
  pub heads : heads t.db.jobs ≡ heads s.db.jobs

Frame-refl : (j : ℕ) (s : Session) → Frame j s s
Frame-refl j s = record { others = λ i h. refl; grows = λ x h. h; watched = refl; heads = refl }

pub Frame-trans : (j : ℕ) (s t u : Session) → Frame j s t → Frame j t u → Frame j s u
Frame-trans j s t u f g = record {
  others = λ i h. g.others i h ∙ f.others i h;
  grows = λ x h. g.grows x (f.grows x h);
  watched = g.watched ∙ f.watched;
  heads = g.heads ∙ f.heads;
}

pub Frame-of_db : (j : ℕ) (s t : Session) → t.db ≡ s.db → Frame j s t
Frame-of_db j s t e = record {
  heads = rw e;
  others = λ i h. rw e;
  grows = λ x h. rw e h;
  watched = rw e;
}

-- Status and error of a row, as a client sees them.
abbrev pub report : ℕ → Session → Option (Status × Option String)
report i s = Option.map (λ (r : JobRow). (r.status, r.error_text)) (row i s.db.jobs)

-- `after` where the statement was executed, and `before` where it failed.
abbrev pub unless {ℓ} : {A : Type ℓ} → Option String → A → A → A
unless none before after = after
unless (some e) before after = before

-- The session after an UPDATE of one row.
pub record Updated (fault : Option String) (j : ℕ) (set : JobRow → JobRow) (s t : Session)
    : Type 0 where
  pub frame : Frame j s t
  pub own : row j t.db.jobs ≡ unless fault (row j s.db.jobs) (Option.map set (row j s.db.jobs))

Updated-of_db :
    (fault : Option String) (j : ℕ) (set : JobRow → JobRow) (s t : Session)
    → ((r : JobRow) → head (set r) ≡ head r)
    → t.db ≡ unless fault s.db (update_jobs (has_id j) set s.db)
    → Updated fault j set s t
Updated-of_db none j set s t k e = record {
  frame = record {
    others = λ i h. rw e (row-update_ne j set (λ r. ap (λ p. p.0) (k r)) i s.db.jobs h);
    grows = λ x h. rw e h;
    watched = rw e;
    heads = rw e (heads-update_rows (has_id j) set k s.db.jobs);
  };
  own = rw e (row-update_self j set (λ r. ap (λ p. p.0) (k r)) s.db.jobs);
}
Updated-of_db (some f) j set s t k e = record { frame = Frame-of_db j s t e; own = rw e }

abbrev pub as_done : ℕ → JobRow → JobRow
as_done now r = record r { status = done; error_text = none; updated_at = now }

abbrev pub as_error : String → ℕ → JobRow → JobRow
as_error message now r = record r { status = error; error_text = some message; updated_at = now }

abbrev pub with_result : String → ℕ → JobRow → JobRow
with_result value now r = record r {
  status = done;
  error_text = none;
  result = some value;
  updated_at = now;
}

abbrev pub with_result_text : String → ℕ → JobRow → JobRow
with_result_text value now r = record r {
  status = done;
  error_text = none;
  result_text = some value;
  updated_at = now;
}

module _ (env : Env) (j : ℕ) (s : Session) where
  pub mark_done-Updated :
      Updated (env.fault s.sent) j (as_done (env.now s.sent)) s (mark_done env j s)
  unfolding mark_done quietly statement mark_done_row
  mark_done-Updated = Updated-of_db _ j _ s _ (λ r. refl) (ground arith)

  pub mark_error-Updated :
      (message : String)
      → Updated
          (env.fault s.sent)
          j
          (as_error message (env.now s.sent))
          s
          (mark_error env j message s)
  unfolding mark_error quietly statement mark_error_row
  mark_error-Updated message = Updated-of_db _ j _ s _ (λ r. refl) (ground arith)

  pub write_ad_hoc_result-Updated :
      (embedding : List Float)
      → Updated
          (env.fault s.sent)
          j
          (with_result (vector_literal env.print_float embedding) (env.now s.sent))
          s
          (write_ad_hoc_result env j embedding s).1
  unfolding write_ad_hoc_result failing_with statement write_result_row
  write_ad_hoc_result-Updated embedding = Updated-of_db _ j _ s _ (λ r. refl) (ground arith)

  pub write_ad_hoc_result_text-Updated :
      (text : String)
      → Updated
          (env.fault s.sent)
          j
          (with_result_text text (env.now s.sent))
          s
          (write_ad_hoc_result_text env j text s).1
  unfolding write_ad_hoc_result_text failing_with statement write_result_text_row
  write_ad_hoc_result_text-Updated text = Updated-of_db _ j _ s _ (λ r. refl) (ground arith)

-- Whether a call returned.
abbrev pub returned {ℓ} : {A : Type ℓ} → Result A → Bool
returned (ok a) = true
returned (err e) = false

module _ (env : Env) (j : ℕ) (s : Session) where
  -- The two calls return exactly where the server has executed the statement.
  pub write_ad_hoc_result-returned :
      (embedding : List Float)
      → returned (write_ad_hoc_result env j embedding s).0 ≡ unless (env.fault s.sent) false true
  unfolding write_ad_hoc_result failing_with statement
  write_ad_hoc_result-returned embedding = ground arith

  pub write_ad_hoc_result_text-returned :
      (text : String)
      → returned (write_ad_hoc_result_text env j text s).0 ≡ unless (env.fault s.sent) false true
  unfolding write_ad_hoc_result_text failing_with statement
  write_ad_hoc_result_text-returned text = ground arith
