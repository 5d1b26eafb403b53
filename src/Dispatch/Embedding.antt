-- ===== src/Dispatch/Embedding.antt =====
-- `dispatch_embed_jobs` as a whole: the cases of what `embed_batch` returns or throws.
use pgquarry.Base.{
  suc, String, ◌≡◌, ◌≢◌, refl, sym, subst, ◌∙◌, some, List, [], ◌∷◌, map, arith, Result, ok, err,
  All, length,
}
use pgquarry.Store.{ClaimedJob}
use pgquarry.Store.Connection.{Env}
use pgquarry.Store.Effects.{mark_error-Updated}
use pgquarry.Store.Literal.{Float}
use pgquarry.Watch.{WatchCache}
use pgquarry.Watch.Refines.{HasKinds, NoFaults, InSync}
use pgquarry.Dispatch.{Written, fail_job, fail_all, embed_jobs, embedded, dispatch_embed_jobs}
use pgquarry.Dispatch.Batch.{
  Distinct, BatchFrame, BatchFrame-nil, BatchFrame-cons, AllHonest, embed_jobs_honest,
}
use pgquarry.Dispatch.Settled.{HasRow}
use pgquarry.Dispatch.Outcome.{
  EndsAs, AllEmbedded, done_count, HasRow-later, EndsAs-kept, embed_jobs_settle,
}

abbrev texts : List ClaimedJob → List String
texts = map (λ j. j.input_text)

pub fail_all-BatchFrame :
    (env : Env) (jobs : List ClaimedJob) (message : String) (w : WatchCache)
    → BatchFrame jobs w.session (fail_all env jobs message w).session
unfolding fail_all fail_job
fail_all-BatchFrame env [] message w = BatchFrame-nil w.session
fail_all-BatchFrame env (job ∷ jobs) message w =
    let u = mark_error-Updated env job.id w.session message in
    BatchFrame-cons job jobs w.session _ _ u.frame
      (fail_all-BatchFrame env jobs message (fail_job env job message w))

pub fail_all_ends :
    (env : Env) (jobs : List ClaimedJob) (message : String) (w : WatchCache)
    → NoFaults env
    → Distinct jobs
    → All (λ job. HasRow job w.session) jobs
    → All (λ job. EndsAs job (some message) (fail_all env jobs message w).session) jobs
unfolding fail_all fail_job
fail_all_ends env [] message w n d rows = tt
fail_all_ends env (job ∷ jobs) message w n (fresh, d) ((r, e), rows) =
    let u = mark_error-Updated env job.id w.session message in
    let w' = fail_job env job message w in
    (
      EndsAs-kept job (some message) jobs w'.session _ (fail_all-BatchFrame env jobs message w')
          fresh (ground (arith, e, u.own, n w.session.sent)),
      fail_all_ends env jobs message w' n d
          (HasRow-later job.id jobs w.session w'.session u.frame fresh rows),
    )

-- The message with which the whole batch fails: what `embed_batch` throws, or that it returns some
-- vectors but not one for each text.
pub data BatchFails (jobs : List ClaimedJob) : Result (List (List Float)) → String → Type 0 where
  threw : (e : String) → BatchFails jobs (err e) e
  mismatch :
      (v : List Float) (vectors : List (List Float))
      → suc (length vectors) ≢ length jobs
      → BatchFails jobs (ok (v ∷ vectors)) "embed_batch size mismatch"

embedded_fails :
    (env : Env) (jobs : List ClaimedJob) (r : Result (List (List Float))) (message : String)
    (w : WatchCache)
    → BatchFails jobs r message
    → embedded env jobs r w ≡ (0, fail_all env jobs message w)
unfolding embedded
embedded_fails env jobs r message w (threw e) = refl
embedded_fails env jobs r message w (mismatch v vectors h) = ground arith

pub dispatch_embedded :
    (env : Env) (embed_batch : List String → Result (List (List Float))) (job : ClaimedJob)
    (jobs : List ClaimedJob) (w : WatchCache)
    → dispatch_embed_jobs env embed_batch (job ∷ jobs) w
      ≡ embedded env (job ∷ jobs) (embed_batch (texts (job ∷ jobs))) w
unfolding dispatch_embed_jobs
dispatch_embedded env embed_batch job jobs w = refl

-- Where `embed_batch` throws, or returns a wrong number of vectors that is not 0, then while the
-- server answers every job of the batch ends in error with the one message, and none is counted as
-- written. The jobs have distinct ids and rows.
pub dispatch_embed_jobs_fails :
    (env : Env) (embed_batch : List String → Result (List (List Float))) (jobs : List ClaimedJob)
    (message : String) (w : WatchCache)
    → NoFaults env
    → Distinct jobs
    → All (λ job. HasRow job w.session) jobs
    → BatchFails jobs (embed_batch (texts jobs)) message
    → All
        (λ job. EndsAs job (some message) (dispatch_embed_jobs env embed_batch jobs w).1.session)
        jobs
      × ((dispatch_embed_jobs env embed_batch jobs w).0 ≡ 0)
dispatch_embed_jobs_fails env embed_batch [] message w n d rows b =
    (tt, unfold dispatch_embed_jobs in refl)
dispatch_embed_jobs_fails env embed_batch (job ∷ jobs) message w n d rows b =
    subst (λ (x : Written). All (λ j. EndsAs j (some message) x.1.session) (job ∷ jobs) × (x.0 ≡ 0))
      (sym (
        dispatch_embedded env embed_batch job jobs w
        ∙ embedded_fails env (job ∷ jobs) (embed_batch (texts (job ∷ jobs))) message w b))
      (fail_all_ends env (job ∷ jobs) message w n d rows, refl)

-- Where `embed_batch` returns no vector at all for a batch that is not empty, the size test lets it
-- pass: no statement is sent, and the jobs stay as the claim has left them.
pub empty_result_strands :
    (env : Env) (embed_batch : List String → Result (List (List Float))) (job : ClaimedJob)
    (jobs : List ClaimedJob) (w : WatchCache)
    → embed_batch (texts (job ∷ jobs)) ≡ ok []
    → dispatch_embed_jobs env embed_batch (job ∷ jobs) w ≡ (0, w)
unfolding embedded embed_jobs
empty_result_strands env embed_batch job jobs w h =
    rw (dispatch_embedded env embed_batch job jobs w) (rw h)

pub embedded_ok :
    (env : Env) (jobs : List ClaimedJob) (vectors : List (List Float)) (w : WatchCache)
    → length vectors ≡ length jobs
    → embedded env jobs (ok vectors) w ≡ embed_jobs env jobs vectors 0 w
unfolding embedded
embedded_ok env jobs vectors w h = ground arith

dispatch_ok :
    (env : Env) (embed_batch : List String → Result (List (List Float))) (jobs : List ClaimedJob)
    (vectors : List (List Float)) (w : WatchCache)
    → embed_batch (texts jobs) ≡ ok vectors
    → length vectors ≡ length jobs
    → dispatch_embed_jobs env embed_batch jobs w ≡ embed_jobs env jobs vectors 0 w
dispatch_ok env embed_batch [] [] w h l = unfold dispatch_embed_jobs embed_jobs in refl
dispatch_ok env embed_batch [] (v ∷ vectors) w h l = absurd (omega arith)
dispatch_ok env embed_batch (job ∷ jobs) vectors w h l =
    rw (dispatch_embedded env embed_batch job jobs w)
      (rw h (embedded_ok env (job ∷ jobs) vectors w l))

-- While the server answers, and the cache is in step with the table: where `embed_batch` returns a
-- vector for each text, each job of the batch ends with its verdict. It is done exactly where its
-- vector is not empty and it is ad hoc or has a registered embed mapping, else in error with the
-- message for its case. The number returned is that of the jobs done. The jobs have distinct ids and
-- rows.
pub dispatch_embed_jobs_settle :
    (env : Env) (embed_batch : List String → Result (List (List Float))) (jobs : List ClaimedJob)
    (vectors : List (List Float)) (w : WatchCache)
    → NoFaults env
    → HasKinds w.session.db.watched
    → InSync w
    → Distinct jobs
    → All (λ job. HasRow job w.session) jobs
    → embed_batch (texts jobs) ≡ ok vectors
    → length vectors ≡ length jobs
    → AllEmbedded w.session.db.watched jobs vectors
        (dispatch_embed_jobs env embed_batch jobs w).1.session
      × ((dispatch_embed_jobs env embed_batch jobs w).0
          ≡ done_count w.session.db.watched jobs vectors)
dispatch_embed_jobs_settle env embed_batch jobs vectors w n h v d rows b l =
    let s = embed_jobs_settle env jobs vectors 0 w n h v d rows l in
    rw (dispatch_ok env embed_batch jobs vectors w b l) (s.0, omega (arith, s.1))

-- Whichever statements fail, where `embed_batch` returns a vector for each text:
-- `dispatch_embed_jobs` changes rows of the batch alone, forgets no executed write, and makes a job
-- done only if the vector at the place of the job was written: into the row of an ad hoc job, or by an
-- executed statement for the source row of any other. The jobs have distinct ids.
pub dispatch_embed_jobs_honest :
    (env : Env) (embed_batch : List String → Result (List (List Float))) (jobs : List ClaimedJob)
    (vectors : List (List Float)) (w : WatchCache)
    → Distinct jobs
    → embed_batch (texts jobs) ≡ ok vectors
    → length vectors ≡ length jobs
    → BatchFrame jobs w.session (dispatch_embed_jobs env embed_batch jobs w).1.session
      × AllHonest env jobs vectors w.session (dispatch_embed_jobs env embed_batch jobs w).1.session
dispatch_embed_jobs_honest env embed_batch jobs vectors w d b l =
    rw (dispatch_ok env embed_batch jobs vectors w b l) (embed_jobs_honest env jobs vectors 0 w d)
