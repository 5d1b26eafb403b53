-- ===== src/Worker/Honest.antt =====
-- The claimed jobs of a round, whatever the server answers: a job becomes done only if its own result
-- has been written.
use pgquarry.Base.{
  ℕ, suc, zero, String, ℤ, ◌≡◌, ◌≢◌, inl, inr, refl, Bool, true, false, Option, List, [], ◌∷◌,
  Result, ok, err, All, arith, length, map, ◌==◌, Bool-cases, ap, Option-cases,
}
use pgquarry.Config.{AppConfig}
use pgquarry.Database.{notify}
use pgquarry.Database.Rows.{row, heads}
use pgquarry.Store.{ClaimedJob, notify_jobs}
use pgquarry.Store.Connection.{Env, Session, statement, quietly}
use pgquarry.Store.Literal.{Float}
use pgquarry.Watch.{WatchCache, begin_batch}
use pgquarry.Dispatch.{Written, embed_jobs, embedded, dispatch_embed_jobs, dispatch_generate_jobs}
use pgquarry.Dispatch.Batch.{
  Distinct, BatchFrame, BatchFrame-nil, HonestAt, embed_jobs_honest, dispatch_generate_jobs_honest,
}
use pgquarry.Dispatch.Embedding.{fail_all-BatchFrame, dispatch_embedded, embedded_ok}
use pgquarry.Dispatch.Rounds.{produced}
use pgquarry.Worker.{of_type, dispatch_both, notified, process}
use pgquarry.Worker.Dealt.{AreApart-sym, of_type-AreApart, All-of_type, All-dealt, Distinct-of_type}
use pgquarry.Worker.Own.{
  own_text, IsHonestJob, HonestStep, unchanged, fail_all-honest, AllHonest-jobs, both_honest,
}

module _ (env : Env) (embed_batch : List String → Result (List (List Float)))
    (provider : Option (String → ℤ → Result String)) (d : ℤ) (batch : List ClaimedJob) where
  -- What follows the call of `embed_batch`.
  embedded_honest :
      (r : Result (List (List Float))) (w : WatchCache)
      → embed_batch (map (λ (j : ClaimedJob). j.input_text) batch) ≡ r
      → Distinct batch
      → HonestStep env embed_batch provider d batch batch w.session
          (embedded env batch r w).1.session
  unfolding embedded embed_jobs
  embedded_honest (err e) w b ds = record {
    frame = fail_all-BatchFrame env batch e w;
    honest = fail_all-honest env embed_batch provider d batch batch e w ds;
  }
  embedded_honest (ok []) w b ds = record {
    frame = (embed_jobs_honest env batch [] 0 w ds).0;
    honest = unchanged env embed_batch provider d batch batch w.session;
  }
  embedded_honest (ok (v ∷ vectors)) w b ds =
      elim (Bool-cases (length (v ∷ vectors) == length batch)) [
        | inl h ↦
            let l : length (v ∷ vectors) ≡ length batch = ground (arith, h) in
            let (f, a) = embed_jobs_honest env batch (v ∷ vectors) 0 w ds in
            rw (embedded_ok env batch (v ∷ vectors) w l) (record {
              frame = f;
              honest =
                  AllHonest-jobs env embed_batch provider d batch (v ∷ vectors) (v ∷ vectors) batch
                    w.session _ b l (λ j x q. q) a;
            })
        | inr h ↦ rw h (record {
          frame = fail_all-BatchFrame env batch _ w;
          honest = fail_all-honest env embed_batch provider d batch batch _ w ds;
        })
      ]

  generate_honest :
      (jobs : List ClaimedJob) (w : WatchCache)
      → Distinct jobs
      → HonestStep env embed_batch provider d batch jobs w.session
          (dispatch_generate_jobs env provider d jobs w).1.session
  generate_honest jobs w ds =
      let (f, h) = dispatch_generate_jobs_honest env provider d jobs w ds in
      record { frame = f; honest = texts_honest w.session _ jobs h }
    where
      texts_honest :
          (s t : Session) (js : List ClaimedJob)
          → All (λ job. HonestAt env (λ r. r.result_text) job (produced provider d job) s t) js
          → All (IsHonestJob env embed_batch provider d batch s t) js
      texts_honest s t [] a = tt
      texts_honest s t (job ∷ js) (h, hs) = (
        λ r x k. elim (h r x k) [ inl before ↦ inl before | inr own ↦ inr (own_text own) ],
        texts_honest s t js hs,
      )

-- `dispatch_embed_jobs` in whatever case.
embed_honest :
    (env : Env) (embed_batch : List String → Result (List (List Float)))
    (provider : Option (String → ℤ → Result String)) (d : ℤ) (batch : List ClaimedJob)
    (w : WatchCache)
    → Distinct batch
    → HonestStep env embed_batch provider d batch batch w.session
        (dispatch_embed_jobs env embed_batch batch w).1.session
embed_honest env embed_batch provider d [] w ds =
    unfold dispatch_embed_jobs in record { frame = BatchFrame-nil w.session; honest = tt }
embed_honest env embed_batch provider d (job ∷ jobs) w ds =
    rw (dispatch_embedded env embed_batch job jobs w)
      (embedded_honest env embed_batch provider d (job ∷ jobs) _ w refl ds)

module _ (env : Env) (cfg : AppConfig) (embed_batch : List String → Result (List (List Float)))
    (provider : Option (String → ℤ → Result String)) where
  -- Only rows of the jobs change, and a job becomes done only by its own result.
  abbrev pub HonestRound : List ClaimedJob → WatchCache → WatchCache → Type 0
  HonestRound jobs w w' =
      HonestStep env embed_batch provider cfg.generation.max_tokens (of_type false jobs) jobs
        w.session w'.session

  dispatch_both_honest :
      (embed_first : Bool) (jobs : List ClaimedJob) (w : WatchCache)
      → Distinct jobs
      → HonestRound jobs w (dispatch_both env cfg embed_batch provider embed_first jobs w).1
  unfolding dispatch_both
  dispatch_both_honest true jobs w ds =
      let xs = of_type false jobs in
      let ys = of_type true jobs in
      let d = cfg.generation.max_tokens in
      let u = (dispatch_embed_jobs env embed_batch xs w).1 in
      both_honest env embed_batch provider d xs jobs xs ys w.session u.session _
        (λ i f. (
          All-of_type (λ job. i ≢ job.id) false jobs f,
          All-of_type (λ job. i ≢ job.id) true jobs f,
        ))
        (λ P a b. All-dealt P jobs a b) (of_type-AreApart jobs ds)
        (embed_honest env embed_batch provider d xs w (Distinct-of_type false jobs ds))
        (generate_honest env embed_batch provider d xs ys u (Distinct-of_type true jobs ds))
  dispatch_both_honest false jobs w ds =
      let xs = of_type true jobs in
      let ys = of_type false jobs in
      let d = cfg.generation.max_tokens in
      let u = (dispatch_generate_jobs env provider d xs w).1 in
      both_honest env embed_batch provider d ys jobs xs ys w.session u.session _
        (λ i f. (
          All-of_type (λ job. i ≢ job.id) true jobs f,
          All-of_type (λ job. i ≢ job.id) false jobs f,
        ))
        (λ P a b. All-dealt P jobs b a) (AreApart-sym ys xs (of_type-AreApart jobs ds))
        (generate_honest env embed_batch provider d ys xs w (Distinct-of_type true jobs ds))
        (embed_honest env embed_batch provider d ys u (Distinct-of_type false jobs ds))

  notify_jobs-kept :
      (count : ℕ) (s : Session)
      → ((notify_jobs env count s).db.jobs ≡ s.db.jobs)
        × ((notify_jobs env count s).db.watched ≡ s.db.watched)
        × ((notify_jobs env count s).db.writes ≡ s.db.writes)
  unfolding notify_jobs quietly statement notify
  notify_jobs-kept count s = elim (Option-cases (env.fault s.sent)) [
    | inl h ↦ ground (arith, h)
    | inr (f, h) ↦ ground (arith, h)
  ]

  notify_jobs-BatchFrame : (count : ℕ) (s : Session) → BatchFrame [] s (notify_jobs env count s)
  notify_jobs-BatchFrame count s =
      let (j, k, l) = notify_jobs-kept count s in
      record {
        others = λ i h. ap (row i) j;
        grows = λ x h. rw l h;
        watched = k;
        heads = ap heads j;
      }

  notified_honest :
      (jobs : List ClaimedJob) (w : WatchCache) (x : Written)
      → HonestRound jobs w x.1
      → HonestRound jobs w (notified env cfg embed_batch provider x)
  notified_honest jobs w (zero, v) p = p
  notified_honest jobs w (suc m, v) p =
      both_honest env embed_batch provider cfg.generation.max_tokens (of_type false jobs) jobs jobs
        [] w.session v.session _ (λ i f. (f, tt)) (λ P a b. a) (AreApart-sym [] jobs tt) p
        (record { frame = notify_jobs-BatchFrame (suc m) v.session; honest = tt })

  -- Whichever statements fail and whatever the providers return or throw, the processing of the
  -- claimed jobs of a round, both dispatches in either order and the notification, changes only
  -- rows of these jobs, forgets no executed write, and makes a job done only if its own result was
  -- written: the vector that came back at its place among the embed jobs, or the text generated for
  -- it, into its own row if it is ad hoc, or else by an executed statement for its source row. The
  -- jobs have distinct ids.
  pub process_honest :
      (embed_first : Bool) (jobs : List ClaimedJob) (w : WatchCache)
      → Distinct jobs
      → HonestRound jobs w (process env cfg embed_batch provider embed_first jobs w)
  unfolding process begin_batch
  process_honest embed_first [] w ds = record { frame = BatchFrame-nil w.session; honest = tt }
  process_honest embed_first (job ∷ jobs) w ds =
      notified_honest (job ∷ jobs) w _
        (dispatch_both_honest embed_first (job ∷ jobs) (begin_batch env w) ds)
