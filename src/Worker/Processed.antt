-- ===== src/Worker/Processed.antt =====
-- The claimed jobs of a round, while the server answers: both dispatches and the notification.
use pgquarry.Base.{
  ℕ, suc, zero, String, ℤ, ◌≡◌, ◌≢◌, inl, inr, refl, ◌∙◌, Bool, true, false, Option, List, [], ◌∷◌,
  Result, All, arith,
}
use pgquarry.Config.{AppConfig}
use pgquarry.Database.{JobRow, notify}
use pgquarry.Database.Rows.{row, heads}
use pgquarry.Store.{ClaimedJob, notify_jobs}
use pgquarry.Store.Connection.{Env, Session, statement, quietly}
use pgquarry.Store.Literal.{Float}
use pgquarry.Watch.{WatchCache, begin_batch}
use pgquarry.Watch.Refines.{HasKinds, NoFaults, InSync}
use pgquarry.Dispatch.{Written, dispatch_embed_jobs, dispatch_generate_jobs}
use pgquarry.Dispatch.Batch.{Fresh, Distinct, BatchFrame}
use pgquarry.Dispatch.Settled.{HasRow, InSync-of_session}
use pgquarry.Worker.{of_type, dispatch_both, notified, process}
use pgquarry.Worker.Backlog.{IsFinal}
use pgquarry.Worker.Batches.{Settles, Answers, embed_Settles, generate_Settles}
use pgquarry.Worker.Dealt.{
  AreApart, AreApart-sym, of_type-AreApart, All-of_type, All-dealt, Distinct-of_type,
}

-- From `w` to `w'` only rows of the jobs change, and all of them end.
pub record Processes (jobs : List ClaimedJob) (w w' : WatchCache) : Type 0 where
  pub others : (i : ℕ) → Fresh i jobs → row i w'.session.db.jobs ≡ row i w.session.db.jobs
  pub heads : heads w'.session.db.jobs ≡ heads w.session.db.jobs
  pub watched : w'.session.db.watched ≡ w.session.db.watched
  pub ended : All (λ (job : ClaimedJob). IsFinal job.id w'.session.db.jobs) jobs
  pub in_sync : InSync w'

pub IsFinal-row :
    (i : ℕ) (rows rows' : List JobRow) → row i rows' ≡ row i rows → IsFinal i rows → IsFinal i rows'
IsFinal-row i rows rows' e (inl h) = inl (e ∙ h)
IsFinal-row i rows rows' e (inr (r, h, k)) = inr (r, e ∙ h, k)

ended-kept :
    (xs ys : List ClaimedJob) (s t : Session)
    → BatchFrame ys s t
    → AreApart xs ys
    → All (λ (job : ClaimedJob). IsFinal job.id s.db.jobs) xs
    → All (λ (job : ClaimedJob). IsFinal job.id t.db.jobs) xs
ended-kept [] ys s t f a e = tt
ended-kept (x ∷ xs) ys s t f (n, a) (h, e) =
    (IsFinal-row x.id s.db.jobs t.db.jobs (f.others x.id n) h, ended-kept xs ys s t f a e)

HasRow-apart :
    (xs ys : List ClaimedJob) (s t : Session)
    → BatchFrame ys s t
    → AreApart xs ys
    → All (λ job. HasRow job s) xs
    → All (λ job. HasRow job t) xs
HasRow-apart [] ys s t f a e = tt
HasRow-apart (x ∷ xs) ys s t f (n, a) ((r, h), e) =
    ((r, f.others x.id n ∙ h), HasRow-apart xs ys s t f a e)

-- One dispatch and then the other.
both_Settles :
    (jobs : List ClaimedJob) (xs ys : List ClaimedJob) (w u v : WatchCache)
    → ((i : ℕ) → Fresh i jobs → Fresh i xs × Fresh i ys)
    → ((P : ClaimedJob → Type 0) → All P xs → All P ys → All P jobs)
    → AreApart xs ys
    → Settles xs w u
    → Settles ys u v
    → Processes jobs w v
both_Settles jobs xs ys w u v f d a s t = record {
  others = λ i h. t.frame.others i (f i h).1 ∙ s.frame.others i (f i h).0;
  heads = t.frame.heads ∙ s.frame.heads;
  watched = t.frame.watched ∙ s.frame.watched;
  ended =
      d (λ (job : ClaimedJob). IsFinal job.id v.session.db.jobs)
        (ended-kept xs ys u.session v.session t.frame a s.ended) t.ended;
  in_sync = t.in_sync;
}

module _ (env : Env) (cfg : AppConfig) (embed_batch : List String → Result (List (List Float)))
    (provider : Option (String → ℤ → Result String)) (n : NoFaults env)
    (answers : Answers embed_batch) where
  dispatch_both-Processes :
      (embed_first : Bool) (jobs : List ClaimedJob) (w : WatchCache)
      → HasKinds w.session.db.watched
      → InSync w
      → Distinct jobs
      → All (λ job. HasRow job w.session) jobs
      → Processes jobs w (dispatch_both env cfg embed_batch provider embed_first jobs w).1
  unfolding dispatch_both
  dispatch_both-Processes true jobs w h v ds rows =
      let xs = of_type false jobs in
      let ys = of_type true jobs in
      let apart = of_type-AreApart jobs ds in
      let u = (dispatch_embed_jobs env embed_batch xs w).1 in
      let s =
        embed_Settles env n embed_batch xs w h v (Distinct-of_type false jobs ds)
          (All-of_type (λ job. HasRow job w.session) false jobs rows) answers in
      let t =
        generate_Settles env n provider cfg.generation.max_tokens ys u (rw s.frame.watched h)
          s.in_sync (Distinct-of_type true jobs ds)
          (HasRow-apart ys xs w.session u.session s.frame (AreApart-sym xs ys apart)
            (All-of_type (λ job. HasRow job w.session) true jobs rows)) in
      both_Settles jobs xs ys w u _
        (λ i f. (
          All-of_type (λ job. i ≢ job.id) false jobs f,
          All-of_type (λ job. i ≢ job.id) true jobs f,
        ))
        (λ P a b. All-dealt P jobs a b) apart s t
  dispatch_both-Processes false jobs w h v ds rows =
      let xs = of_type true jobs in
      let ys = of_type false jobs in
      let apart = AreApart-sym ys xs (of_type-AreApart jobs ds) in
      let u = (dispatch_generate_jobs env provider cfg.generation.max_tokens xs w).1 in
      let s =
        generate_Settles env n provider cfg.generation.max_tokens xs w h v
          (Distinct-of_type true jobs ds)
          (All-of_type (λ job. HasRow job w.session) true jobs rows) in
      let t =
        embed_Settles env n embed_batch ys u (rw s.frame.watched h) s.in_sync
          (Distinct-of_type false jobs ds)
          (HasRow-apart ys xs w.session u.session s.frame (AreApart-sym xs ys apart)
            (All-of_type (λ job. HasRow job w.session) false jobs rows))
          answers in
      both_Settles jobs xs ys w u _
        (λ i f. (
          All-of_type (λ job. i ≢ job.id) true jobs f,
          All-of_type (λ job. i ≢ job.id) false jobs f,
        ))
        (λ P a b. All-dealt P jobs b a) apart s t

  notify_jobs-rows :
      (count : ℕ) (s : Session)
      → ((notify_jobs env count s).db.jobs ≡ s.db.jobs)
        × ((notify_jobs env count s).db.watched ≡ s.db.watched)
  unfolding notify_jobs quietly statement notify
  notify_jobs-rows count s = ground (arith, n s.sent)

  notified-Processes :
      (jobs : List ClaimedJob) (w : WatchCache) (x : Written)
      → Processes jobs w x.1
      → Processes jobs w (notified env cfg embed_batch provider x)
  notified-Processes jobs w (zero, v) p = p
  notified-Processes jobs w (suc m, v) p =
      let (e, k) = notify_jobs-rows (suc m) v.session in
      record {
        others = λ i h. rw e (p.others i h);
        heads = rw e p.heads;
        watched = k ∙ p.watched;
        ended = rw e p.ended;
        in_sync = InSync-of_session v (notify_jobs env (suc m) v.session) k p.in_sync;
      }

  begin_batch-InSync : (w : WatchCache) → InSync w → InSync (begin_batch env w)
  unfolding begin_batch
  begin_batch-InSync w v = record { hit = v.hit; miss = λ source kind k r h. absurd (cc) }

  pub process-Processes :
      (embed_first : Bool) (jobs : List ClaimedJob) (w : WatchCache)
      → HasKinds w.session.db.watched
      → InSync w
      → Distinct jobs
      → All (λ job. HasRow job w.session) jobs
      → Processes jobs w (process env cfg embed_batch provider embed_first jobs w)
  unfolding process begin_batch
  process-Processes embed_first [] w h v ds rows = record {
    others = λ i h. refl;
    heads = refl;
    watched = refl;
    ended = tt;
    in_sync = v;
  }
  process-Processes embed_first (job ∷ jobs) w h v ds rows =
      let p =
        dispatch_both-Processes embed_first (job ∷ jobs) (begin_batch env w) h
          (begin_batch-InSync w v) ds rows in
      let q = notified-Processes (job ∷ jobs) (begin_batch env w) _ p in
      record {
        others = q.others;
        heads = q.heads;
        watched = q.watched;
        ended = q.ended;
        in_sync = q.in_sync;
      }
