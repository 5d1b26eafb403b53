-- ===== src/Dispatch/Rounds.antt =====
-- One round of either loop: it changes the row of its job alone, and makes the job done only if the
-- result has been written.
use pgquarry.Base.{
  ℕ, String, ℤ, ◌≡◌, inl, inr, refl, true, false, Option, none, some, List, [], ◌∷◌, arith, str_eq,
  Bool-cases, Result, ok, err, Exec, value_or,
}
use pgquarry.Config.{TableMapping}
use pgquarry.Database.{JobRow}
use pgquarry.Store.{ClaimedJob}
use pgquarry.Store.Connection.{Env, Session}
use pgquarry.Store.Effects.{
  Frame-trans, Frame-of_db, Updated, unless, returned, with_result, with_result_text,
  write_ad_hoc_result-Updated, write_ad_hoc_result_text-Updated, write_ad_hoc_result-returned,
  write_ad_hoc_result_text-returned,
}
use pgquarry.Store.UserTables.{WroteBack, write_back-WroteBack, write_back_text-WroteBack}
use pgquarry.Store.Literal.{Float, vector_literal}
use pgquarry.Watch.{WatchCache, find}
use pgquarry.Watch.Lookup.{find_session}
use pgquarry.Dispatch.{
  fail_job, finish_write, missing, write_mapped, deliver, embed_job, generated, generate_job,
}
use pgquarry.Dispatch.Honest.{
  IsHonest, mark_error-IsHonest, finish_ad_hoc-IsHonest, finish_mapped-IsHonest,
}

module _ (env : Env) (job : ClaimedJob) (kind : String) (ad_hoc : Exec Session (Unit {0}))
    (mapped : TableMapping → Exec Session (Unit {0})) (written : ℕ) (w : WatchCache) where
  pub deliver_ad_hoc :
      job.source_table ≡ none
      → deliver env job kind ad_hoc mapped written w ≡ finish_write env job written false ad_hoc w
  unfolding deliver
  deliver_ad_hoc e = ground arith

  pub deliver_mapped :
      (source : String)
      → job.source_table ≡ some source
      → deliver env job kind ad_hoc mapped written w
        ≡ write_mapped env job kind source mapped written w
  unfolding deliver
  deliver_mapped source e = ground arith

module _ (env : Env) (got : JobRow → Option String) (job : ClaimedJob) (value : String) where
  IsHonest-of_db :
      (s s' t : Session)
      → s'.db ≡ s.db
      → IsHonest env got job value s' t
      → IsHonest env got job value s t
  IsHonest-of_db s s' t e h = record {
    frame = Frame-trans job.id s s' t (Frame-of_db job.id s s' e) h.frame;
    written = λ r a d. rw e at (h.written r a d);
  }

  module _ (write : TableMapping → Exec Session (Unit {0}))
      (wrote : (m : TableMapping) (s : Session)
        → WroteBack
            (env.fault s.sent)
            value
            (value_or job.source_id env.unset_id)
            s
            (write m s).1
            (write m s).0) where
    write_mapped-IsHonest :
        (kind source : String) (written : ℕ) (w : WatchCache)
        → job.source_table ≡ some source
        → IsHonest env got job value w.session
            (write_mapped env job kind source write written w).1.session
    unfolding write_mapped fail_job
    write_mapped-IsHonest kind source written w h =
        IsHonest-of_db w.session (find env source kind w).1.session _
          (find_session env source kind w).0 (of_found (find env source kind w).0 refl)
      where
        of_found :
            (o : Option TableMapping)
            → (find env source kind w).0 ≡ o
            → IsHonest env got job value
                (find env source kind w).1.session
                (write_mapped env job kind source write written w).1.session
        of_found none e =
            rw (e, write_mapped) (mark_error-IsHonest env got job value (missing kind source) _)
        of_found (some m) e =
            rw (e, write_mapped)
              (finish_mapped-IsHonest env got job value source (write m) (wrote m) h written
                (find env source kind w).1)

    deliver-IsHonest :
        (set : ℕ → JobRow → JobRow) (ad_hoc : Exec Session (Unit {0}))
        → ((n : ℕ) (r : JobRow) → got (set n r) ≡ some value)
        → ((s : Session) → Updated (env.fault s.sent) job.id (set (env.now s.sent)) s (ad_hoc s).1)
        → ((s : Session) → returned (ad_hoc s).0 ≡ unless (env.fault s.sent) false true)
        → (kind : String) (written : ℕ) (w : WatchCache)
        → IsHonest env got job value w.session
            (deliver env job kind ad_hoc write written w).1.session
    deliver-IsHonest set ad_hoc sets updated answered kind written w =
        of_table job.source_table refl
      where
        of_table :
            (o : Option String)
            → job.source_table ≡ o
            → IsHonest env got job value w.session
                (deliver env job kind ad_hoc write written w).1.session
        of_table none e =
            rw (deliver_ad_hoc env job kind ad_hoc write written w e) (
              finish_ad_hoc-IsHonest env got job value set ad_hoc sets updated answered e written w)
        of_table (some source) e =
            rw (deliver_mapped env job kind ad_hoc write written w source e)
              (write_mapped-IsHonest kind source written w e)

-- One round of the loop of `dispatch_embed_jobs`.
pub embed_job-IsHonest :
    (env : Env) (job : ClaimedJob) (vector : List Float) (written : ℕ) (w : WatchCache)
    → IsHonest env
        (λ r. r.result)
        job
        (vector_literal env.print_float vector)
        w.session
        (embed_job env job vector written w).1.session
unfolding embed_job fail_job
embed_job-IsHonest env job [] written w = mark_error-IsHonest env _ job _ _ w.session
embed_job-IsHonest env job (x ∷ xs) written w =
    deliver-IsHonest env (λ r. r.result) job (vector_literal env.print_float (x ∷ xs)) _
      (λ m s. write_back-WroteBack env m _ s (x ∷ xs))
      (with_result (vector_literal env.print_float (x ∷ xs))) _ (λ n r. refl)
      (λ s. write_ad_hoc_result-Updated env job.id s (x ∷ xs))
      (λ s. write_ad_hoc_result-returned env job.id s (x ∷ xs)) "embed" written w

-- The text that the provider returns, or nothing.
abbrev pub text_of : Result String → String
text_of (ok text) = text
text_of (err e) = ""

generated-IsHonest :
    (env : Env) (job : ClaimedJob) (r : Result String) (written : ℕ) (w : WatchCache)
    → IsHonest env
        (λ r. r.result_text)
        job
        (text_of r)
        w.session
        (generated env job r written w).1.session
unfolding generated fail_job
generated-IsHonest env job (err e) written w = mark_error-IsHonest env _ job _ _ w.session
generated-IsHonest env job (ok text) written w = elim (Bool-cases (str_eq text "")) [
  | inl e ↦ rw (e, generated) (mark_error-IsHonest env _ job _ _ w.session)
  | inr e ↦
      rw (e, generated)
        (deliver-IsHonest env (λ r. r.result_text) job text _
          (λ m s. write_back_text-WroteBack env m _ s text) (with_result_text text) _ (λ n r. refl)
          (λ s. write_ad_hoc_result_text-Updated env job.id s text)
          (λ s. write_ad_hoc_result_text-returned env job.id s text) "generate" written w)
]

-- What the provider, if there is one, makes of a job.
abbrev pub produced : Option (String → ℤ → Result String) → ℤ → ClaimedJob → String
produced none d job = ""
produced (some generate) d job = text_of (generate job.input_text (value_or job.max_tokens d))

-- One round of the loop of `dispatch_generate_jobs`.
pub generate_job-IsHonest :
    (env : Env) (provider : Option (String → ℤ → Result String)) (d : ℤ) (job : ClaimedJob)
    (written : ℕ) (w : WatchCache)
    → IsHonest env
        (λ r. r.result_text)
        job
        (produced provider d job)
        w.session
        (generate_job env provider d job written w).1.session
unfolding generate_job fail_job
generate_job-IsHonest env none d job written w = mark_error-IsHonest env _ job _ _ w.session
generate_job-IsHonest env (some generate) d job written w = generated-IsHonest env job _ written w
