-- ===== src/Dispatch/Outcome.antt =====
-- The outcome of a whole batch while the server answers: every job ends with its verdict, and the
-- number returned is that of the jobs done.
use pgquarry.Base.{
  ℕ, ◌+◌, String, ℤ, ◌≡◌, sym, ◌∙◌, Option, some, List, [], ◌∷◌, arith, Result, All, length,
}
use pgquarry.Database.{WatchedRow}
use pgquarry.Store.{ClaimedJob}
use pgquarry.Store.Connection.{Env, Session}
use pgquarry.Store.Effects.{Frame, report}
use pgquarry.Store.Literal.{Float}
use pgquarry.Watch.{WatchCache}
use pgquarry.Watch.Refines.{HasKinds, NoFaults, InSync}
use pgquarry.Dispatch.{embed_job, embed_jobs, generate_job, generate_jobs, dispatch_generate_jobs}
use pgquarry.Dispatch.Rounds.{embed_job-IsHonest, generate_job-IsHonest}
use pgquarry.Dispatch.Batch.{Fresh, Distinct, BatchFrame, embed_jobs_honest, generate_jobs_honest}
use pgquarry.Dispatch.Settled.{outcome, points, HasRow}
use pgquarry.Dispatch.Verdict.{
  embed_verdict, generate_verdict, embed_job-IsSettled, generate_job-IsSettled,
}

-- The row of the job says how it ended.
abbrev pub EndsAs : ClaimedJob → Option String → Session → Type 0
EndsAs job verdict s = report job.id s ≡ some (outcome verdict)

-- Each job with the vector at its place ends with its verdict.
abbrev pub AllEmbedded : List WatchedRow → List ClaimedJob → List (List Float) → Session → Type 0
AllEmbedded watched [] vectors s = Unit {0}
AllEmbedded watched (job ∷ jobs) [] s = Unit {0}
AllEmbedded watched (job ∷ jobs) (v ∷ vectors) s =
    EndsAs job (embed_verdict watched job v) s × AllEmbedded watched jobs vectors s

-- The number of jobs whose verdict is done.
abbrev pub done_count : List WatchedRow → List ClaimedJob → List (List Float) → ℕ
done_count watched [] vectors = 0
done_count watched (job ∷ jobs) [] = 0
done_count watched (job ∷ jobs) (v ∷ vectors) =
    points (embed_verdict watched job v) + done_count watched jobs vectors

pub HasRow-later :
    (first : ℕ) (jobs : List ClaimedJob) (s t : Session)
    → Frame first s t
    → Fresh first jobs
    → All (λ job. HasRow job s) jobs
    → All (λ job. HasRow job t) jobs
HasRow-later first [] s t f n h = tt
HasRow-later first (job ∷ jobs) s t f n ((r, e), h) =
    ((r, f.others job.id (λ p. n.0 (sym p)) ∙ e), HasRow-later first jobs s t f n.1 h)

pub EndsAs-kept :
    (job : ClaimedJob) (verdict : Option String) (jobs : List ClaimedJob) (s t : Session)
    → BatchFrame jobs s t
    → Fresh job.id jobs
    → EndsAs job verdict s
    → EndsAs job verdict t
EndsAs-kept job verdict jobs s t f n h = ground (arith, f.others job.id n, h)

-- While the server answers, and the cache is in step with the table, each job of the batch ends with
-- its verdict: done exactly where it has a vector and is ad hoc or has a registered embed mapping,
-- else in error with the message for its case. The number returned is that of the jobs done. The
-- jobs have distinct ids and rows, and there is a vector for each.
pub embed_jobs_settle :
    (env : Env) (jobs : List ClaimedJob) (vectors : List (List Float)) (written : ℕ)
    (w : WatchCache)
    → NoFaults env
    → HasKinds w.session.db.watched
    → InSync w
    → Distinct jobs
    → All (λ job. HasRow job w.session) jobs
    → length vectors ≡ length jobs
    → AllEmbedded w.session.db.watched jobs vectors
        (embed_jobs env jobs vectors written w).1.session
      × ((embed_jobs env jobs vectors written w).0
          ≡ written + done_count w.session.db.watched jobs vectors)
unfolding embed_jobs
embed_jobs_settle env [] [] written w n h v d rows l = (tt, omega arith)
embed_jobs_settle env [] (x ∷ vectors) written w n h v d rows l = absurd (omega arith)
embed_jobs_settle env (job ∷ jobs) [] written w n h v d rows l = absurd (omega arith)
embed_jobs_settle env (job ∷ jobs) (x ∷ vectors) written w n h v (fresh, d) (r, rows) l =
    let s = embed_job-IsSettled env n job written x w h r v in
    let f = (embed_job-IsHonest env job x written w).frame in
    let (written', w') = embed_job env job x written w in
    let ih =
      embed_jobs_settle env jobs vectors written' w' n (rw s.watched h) s.in_sync d
        (HasRow-later job.id jobs w.session w'.session f fresh rows) (omega arith) in
    let later = (embed_jobs_honest env jobs vectors written' w' d).0 in
    (
      (EndsAs-kept job _ jobs w'.session _ later fresh s.reported, rw s.watched at ih.0),
      omega (arith, rw s.watched at ih.1, s.counted),
    )

-- The number of jobs whose verdict is done.
abbrev pub generated_count :
    List WatchedRow → Option (String → ℤ → Result String) → ℤ → List ClaimedJob → ℕ
generated_count watched provider d [] = 0
generated_count watched provider d (job ∷ jobs) =
    points (generate_verdict watched provider d job) + generated_count watched provider d jobs

AllGenerated :
    (watched watched' : List WatchedRow) (provider : Option (String → ℤ → Result String)) (d : ℤ)
    (jobs : List ClaimedJob) (s : Session)
    → watched' ≡ watched
    → All (λ job. EndsAs job (generate_verdict watched' provider d job) s) jobs
    → All (λ job. EndsAs job (generate_verdict watched provider d job) s) jobs
AllGenerated watched watched' provider d jobs s e h = rw e at h

pub generate_jobs_settle :
    (env : Env) (provider : Option (String → ℤ → Result String)) (d : ℤ) (jobs : List ClaimedJob)
    (written : ℕ) (w : WatchCache)
    → NoFaults env
    → HasKinds w.session.db.watched
    → InSync w
    → Distinct jobs
    → All (λ job. HasRow job w.session) jobs
    → All
        (λ job.
          EndsAs job
            (generate_verdict w.session.db.watched provider d job)
            (generate_jobs env provider d jobs written w).1.session)
        jobs
      × ((generate_jobs env provider d jobs written w).0
          ≡ written + generated_count w.session.db.watched provider d jobs)
unfolding generate_jobs
generate_jobs_settle env provider d [] written w n h v ds rows = (tt, omega arith)
generate_jobs_settle env provider d (job ∷ jobs) written w n h v (fresh, ds) (r, rows) =
    let s = generate_job-IsSettled env n job written provider d w h r v in
    let f = (generate_job-IsHonest env provider d job written w).frame in
    let (written', w') = generate_job env provider d job written w in
    let ih =
      generate_jobs_settle env provider d jobs written' w' n (rw s.watched h) s.in_sync ds
        (HasRow-later job.id jobs w.session w'.session f fresh rows) in
    let later = (generate_jobs_honest env provider d jobs written' w' ds).0 in
    (
      (
        EndsAs-kept job _ jobs w'.session _ later fresh s.reported,
        AllGenerated w.session.db.watched w'.session.db.watched provider d jobs
            (generate_jobs env provider d jobs written' w').1.session s.watched ih.0,
      ),
      omega (arith, rw s.watched at ih.1, s.counted),
    )

-- While the server answers, and the cache is in step with the table, each job of the batch ends with
-- its verdict: done exactly where the provider returns some text for it (under the limit of tokens
-- of the job, or else the default one) and it is ad hoc or has a registered generate mapping, else in
-- error with the message for its case. The number returned is that of the jobs done. The jobs have
-- distinct ids and rows.
pub dispatch_generate_jobs_settle :
    (env : Env) (provider : Option (String → ℤ → Result String)) (d : ℤ) (jobs : List ClaimedJob)
    (w : WatchCache)
    → NoFaults env
    → HasKinds w.session.db.watched
    → InSync w
    → Distinct jobs
    → All (λ job. HasRow job w.session) jobs
    → All
        (λ job.
          EndsAs job
            (generate_verdict w.session.db.watched provider d job)
            (dispatch_generate_jobs env provider d jobs w).1.session)
        jobs
      × ((dispatch_generate_jobs env provider d jobs w).0
          ≡ generated_count w.session.db.watched provider d jobs)
unfolding dispatch_generate_jobs
dispatch_generate_jobs_settle env provider d jobs w n h v ds rows =
    let s = generate_jobs_settle env provider d jobs 0 w n h v ds rows in (s.0, omega (arith, s.1))
