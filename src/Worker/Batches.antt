-- ===== src/Worker/Batches.antt =====
-- The two dispatches of a round, while the server answers: every job of a batch ends, and the cache
-- stays in step with the table.
use mathlib.Core.Option
use pgquarry.Base.{
  ℕ, String, ℤ, ◌≡◌, ◌≢◌, inl, inr, refl, Option, none, some, List, [], ◌∷◌, arith, map, Result, ok,
  err, All, length, ◌==◌, Bool-cases,
}
use pgquarry.Database.{JobRow}
use pgquarry.Database.Rows.{row}
use pgquarry.Store.{ClaimedJob}
use pgquarry.Store.Connection.{Env, Session}
use pgquarry.Store.Effects.{mark_error-Updated}
use pgquarry.Store.Literal.{Float}
use pgquarry.Watch.{WatchCache}
use pgquarry.Watch.Refines.{HasKinds, NoFaults, InSync}
use pgquarry.Dispatch.{
  fail_job, fail_all, embed_job, embed_jobs, embedded, dispatch_embed_jobs, generate_job,
  generate_jobs, dispatch_generate_jobs,
}
use pgquarry.Dispatch.Batch.{
  Distinct, BatchFrame, BatchFrame-nil, embed_jobs_honest, generate_jobs_honest,
}
use pgquarry.Dispatch.Embedding.{fail_all-BatchFrame, fail_all_ends, dispatch_embedded}
use pgquarry.Dispatch.Outcome.{
  EndsAs, AllEmbedded, HasRow-later, embed_jobs_settle, generate_jobs_settle,
}
use pgquarry.Dispatch.Rounds.{embed_job-IsHonest, generate_job-IsHonest}
use pgquarry.Dispatch.Settled.{outcome, HasRow, InSync-of_session}
use pgquarry.Dispatch.Verdict.{
  embed_verdict, generate_verdict, embed_job-IsSettled, generate_job-IsSettled,
}
use pgquarry.Worker.Backlog.{IsFinal}

-- From `w` to `w'` a batch is dispatched: only its rows change, all its jobs end, and the cache stays
-- in step.
pub record Settles (jobs : List ClaimedJob) (w w' : WatchCache) : Type 0 where
  pub frame : BatchFrame jobs w.session w'.session
  pub ended : All (λ (job : ClaimedJob). IsFinal job.id w'.session.db.jobs) jobs
  pub in_sync : InSync w'

EndsAs-IsFinal :
    (job : ClaimedJob) (verdict : Option String) (s : Session)
    → EndsAs job verdict s
    → IsFinal job.id s.db.jobs
EndsAs-IsFinal job verdict s e = of_row (row job.id s.db.jobs) verdict refl e
  where
    of_row :
        (o : Option JobRow) (verdict : Option String)
        → row job.id s.db.jobs ≡ o
        → Option.map (λ (r : JobRow). (r.status, r.error_text)) o ≡ some (outcome verdict)
        → IsFinal job.id s.db.jobs
    of_row none verdict k h = inl k
    of_row (some r) none k h = inr (r, k, ground (arith, h))
    of_row (some r) (some m) k h = inr (r, k, ground (arith, h))

-- For some texts, the provider throws or returns some vectors, of whatever number.
abbrev pub Answers : (List String → Result (List (List Float))) → Type 0
Answers embed_batch = (t : String) (ts : List String) → embed_batch (t ∷ ts) ≢ ok []

module _ (env : Env) (n : NoFaults env) where
  -- The cache after the loop of `dispatch_embed_jobs`.
  embed_jobs-InSync :
      (jobs : List ClaimedJob) (vectors : List (List Float)) (written : ℕ) (w : WatchCache)
      → HasKinds w.session.db.watched
      → InSync w
      → Distinct jobs
      → All (λ job. HasRow job w.session) jobs
      → InSync (embed_jobs env jobs vectors written w).1
  unfolding embed_jobs
  embed_jobs-InSync [] [] written w h v d rows = v
  embed_jobs-InSync [] (x ∷ vectors) written w h v d rows = v
  embed_jobs-InSync (job ∷ jobs) [] written w h v d rows = v
  embed_jobs-InSync (job ∷ jobs) (x ∷ vectors) written w h v (fresh, d) (r, rows) =
      let s = embed_job-IsSettled env n job written x w h r v in
      let (written', w') = embed_job env job x written w in
      embed_jobs-InSync jobs vectors written' w' (rw s.watched h) s.in_sync d (
        HasRow-later job.id jobs w.session w'.session (embed_job-IsHonest env job x written w).frame
          fresh rows)

  generate_jobs-InSync :
      (provider : Option (String → ℤ → Result String)) (d : ℤ) (jobs : List ClaimedJob)
      (written : ℕ) (w : WatchCache)
      → HasKinds w.session.db.watched
      → InSync w
      → Distinct jobs
      → All (λ job. HasRow job w.session) jobs
      → InSync (generate_jobs env provider d jobs written w).1
  unfolding generate_jobs
  generate_jobs-InSync provider d [] written w h v ds rows = v
  generate_jobs-InSync provider d (job ∷ jobs) written w h v (fresh, ds) (r, rows) =
      let s = generate_job-IsSettled env n job written provider d w h r v in
      let (written', w') = generate_job env provider d job written w in
      generate_jobs-InSync provider d jobs written' w' (rw s.watched h) s.in_sync ds (
        HasRow-later job.id jobs w.session w'.session
          (generate_job-IsHonest env provider d job written w).frame fresh rows)

  fail_all-InSync :
      (jobs : List ClaimedJob) (message : String) (w : WatchCache)
      → InSync w
      → InSync (fail_all env jobs message w)
  unfolding fail_all fail_job
  fail_all-InSync [] message w v = v
  fail_all-InSync (job ∷ jobs) message w v =
      fail_all-InSync jobs message (fail_job env job message w)
        (InSync-of_session w _ (mark_error-Updated env job.id w.session message).frame.watched v)

  AllEmbedded-IsFinal :
      (watched : _) (jobs : List ClaimedJob) (vectors : List (List Float)) (s : Session)
      → length vectors ≡ length jobs
      → AllEmbedded watched jobs vectors s
      → All (λ (job : ClaimedJob). IsFinal job.id s.db.jobs) jobs
  AllEmbedded-IsFinal watched [] vectors s l a = tt
  AllEmbedded-IsFinal watched (job ∷ jobs) [] s l a = absurd (omega (arith, l))
  AllEmbedded-IsFinal watched (job ∷ jobs) (x ∷ vectors) s l (e, a) = (
    EndsAs-IsFinal job (embed_verdict watched job x) s e,
    AllEmbedded-IsFinal watched jobs vectors s (omega (arith, l)) a,
  )

  AllEnd-IsFinal :
      (verdict : ClaimedJob → Option String) (jobs : List ClaimedJob) (s : Session)
      → All (λ job. EndsAs job (verdict job) s) jobs
      → All (λ (job : ClaimedJob). IsFinal job.id s.db.jobs) jobs
  AllEnd-IsFinal verdict [] s a = tt
  AllEnd-IsFinal verdict (job ∷ jobs) s (e, a) =
      (EndsAs-IsFinal job (verdict job) s e, AllEnd-IsFinal verdict jobs s a)

  pub generate_Settles :
      (provider : Option (String → ℤ → Result String)) (d : ℤ) (jobs : List ClaimedJob)
      (w : WatchCache)
      → HasKinds w.session.db.watched
      → InSync w
      → Distinct jobs
      → All (λ job. HasRow job w.session) jobs
      → Settles jobs w (dispatch_generate_jobs env provider d jobs w).1
  unfolding dispatch_generate_jobs
  generate_Settles provider d jobs w h v ds rows = record {
    frame = (generate_jobs_honest env provider d jobs 0 w ds).0;
    ended =
        AllEnd-IsFinal (generate_verdict w.session.db.watched provider d) jobs
          (generate_jobs env provider d jobs 0 w).1.session
          (generate_jobs_settle env provider d jobs 0 w n h v ds rows).0;
    in_sync = generate_jobs-InSync provider d jobs 0 w h v ds rows;
  }

  fail_all-Settles :
      (jobs : List ClaimedJob) (message : String) (w : WatchCache)
      → InSync w
      → Distinct jobs
      → All (λ job. HasRow job w.session) jobs
      → Settles jobs w (fail_all env jobs message w)
  fail_all-Settles jobs message w v ds rows = record {
    frame = fail_all-BatchFrame env jobs message w;
    ended =
        AllEnd-IsFinal (λ job. some message) jobs (fail_all env jobs message w).session
          (fail_all_ends env jobs message w n ds rows);
    in_sync = fail_all-InSync jobs message w v;
  }

  -- Whatever `embed_batch` throws or returns, but for no vector at all.
  embedded-Settles :
      (job : ClaimedJob) (jobs : List ClaimedJob) (r : Result (List (List Float))) (w : WatchCache)
      → HasKinds w.session.db.watched
      → InSync w
      → Distinct (job ∷ jobs)
      → All (λ j. HasRow j w.session) (job ∷ jobs)
      → r ≢ ok []
      → Settles (job ∷ jobs) w (embedded env (job ∷ jobs) r w).1
  unfolding embedded
  embedded-Settles job jobs (err e) w h v ds rows k = fail_all-Settles (job ∷ jobs) e w v ds rows
  embedded-Settles job jobs (ok []) w h v ds rows k = absurd (k refl)
  embedded-Settles job jobs (ok (x ∷ vectors)) w h v ds rows k =
      elim (Bool-cases (length (x ∷ vectors) == length (job ∷ jobs))) [
        | inl e ↦
            let l : length (x ∷ vectors) ≡ length (job ∷ jobs) = ground (arith, e) in
            rw e (record {
              frame = (embed_jobs_honest env (job ∷ jobs) (x ∷ vectors) 0 w ds).0;
              ended =
                  AllEmbedded-IsFinal w.session.db.watched (job ∷ jobs) (x ∷ vectors)
                    (embed_jobs env (job ∷ jobs) (x ∷ vectors) 0 w).1.session l
                    (embed_jobs_settle env (job ∷ jobs) (x ∷ vectors) 0 w n h v ds rows l).0;
              in_sync = embed_jobs-InSync (job ∷ jobs) (x ∷ vectors) 0 w h v ds rows;
            })
        | inr e ↦ rw e (fail_all-Settles (job ∷ jobs) "embed_batch size mismatch" w v ds rows)
      ]

  pub embed_Settles :
      (embed_batch : List String → Result (List (List Float))) (jobs : List ClaimedJob)
      (w : WatchCache)
      → HasKinds w.session.db.watched
      → InSync w
      → Distinct jobs
      → All (λ job. HasRow job w.session) jobs
      → Answers embed_batch
      → Settles jobs w (dispatch_embed_jobs env embed_batch jobs w).1
  embed_Settles embed_batch [] w h v ds rows k =
      unfold dispatch_embed_jobs in
      record { frame = BatchFrame-nil w.session; ended = tt; in_sync = v }
  embed_Settles embed_batch (job ∷ jobs) w h v ds rows k =
      let texts = map (λ (j : ClaimedJob). j.input_text) (job ∷ jobs) in
      rw (dispatch_embedded env embed_batch job jobs w) (
        embedded-Settles job jobs (embed_batch texts) w h v ds rows
          (k job.input_text (map (λ (j : ClaimedJob). j.input_text) jobs)))
