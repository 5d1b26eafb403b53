-- ===== src/Worker/Own.antt =====
-- What it means that a job became done only by its own result, and how steps that keep to it are put
-- together.
use pgquarry.Base.{
  ℕ, String, ℤ, ◌≡◌, ◌⊎◌, inl, inr, sym, ◌∙◌, Option, some, List, [], ◌∷◌, Result, ok, All, arith,
  length, map,
}
use pgquarry.Database.{JobRow, done, Write}
use pgquarry.Database.Rows.{row, Wrote}
use pgquarry.Store.{ClaimedJob}
use pgquarry.Store.Connection.{Env, Session}
use pgquarry.Store.Effects.{mark_error-Updated}
use pgquarry.Store.Literal.{Float, vector_literal}
use pgquarry.Watch.{WatchCache}
use pgquarry.Dispatch.{fail_job, fail_all}
use pgquarry.Dispatch.Batch.{
  Fresh, Distinct, BatchFrame, BatchFrame-nil, BatchFrame-cons, AllHonest, IsDelivered-grows,
}
use pgquarry.Dispatch.Embedding.{fail_all-BatchFrame}
use pgquarry.Dispatch.Honest.{IsDelivered}
use pgquarry.Dispatch.Rounds.{produced}
use pgquarry.Worker.Dealt.{AreApart, AreApart-sym}

-- A job, and the vector at its place.
pub data AtPlace (job : ClaimedJob) (v : List Float)
    : List ClaimedJob → List (List Float) → Type 0 where
  this :
      {jobs : List ClaimedJob} {vectors : List (List Float)}
      → AtPlace job v (job ∷ jobs) (v ∷ vectors)
  next :
      {j : ClaimedJob} {x : List Float} {jobs : List ClaimedJob} {vectors : List (List Float)}
      → AtPlace job v jobs vectors
      → AtPlace job v (j ∷ jobs) (x ∷ vectors)

module _ (env : Env) (embed_batch : List String → Result (List (List Float)))
    (provider : Option (String → ℤ → Result String)) (d : ℤ) (batch : List ClaimedJob) where
  -- The result of the job itself was written: the vector that came back at its place among the embed
  -- jobs of the batch, or the text that was generated for it.
  pub data HasOwn (job : ClaimedJob) (r : JobRow) (t : Session) : Type 0 where
    own_vector :
        (v : List Float) (vectors : List (List Float))
        → embed_batch (map (λ (j : ClaimedJob). j.input_text) batch) ≡ ok vectors
        → AtPlace job v batch vectors
        → IsDelivered env (λ r. r.result) job (vector_literal env.print_float v) r t
        → HasOwn job r t
    own_text :
        IsDelivered env (λ r. r.result_text) job (produced provider d job) r t → HasOwn job r t

  -- From `s` to `t`, the job became done only if its own result was written.
  abbrev pub IsHonestJob : Session → Session → ClaimedJob → Type 0
  IsHonestJob s t job =
      (r : JobRow)
      → row job.id t.db.jobs ≡ some r
      → r.status ≡ done
      → (row job.id s.db.jobs ≡ some r) ⊎ HasOwn job r t

  HasOwn-grows :
      (job : ClaimedJob) (r : JobRow) (t u : Session)
      → ((x : Write) → Wrote x t.db.writes → Wrote x u.db.writes)
      → HasOwn job r t
      → HasOwn job r u
  HasOwn-grows job r t u g (own_vector v vectors e p x) =
      own_vector v vectors e p (IsDelivered-grows env (λ r. r.result) job _ r t u g x)
  HasOwn-grows job r t u g (own_text x) =
      own_text (IsDelivered-grows env (λ r. r.result_text) job _ r t u g x)

  -- Only rows of the jobs change, and none of them becomes done without its result.
  pub record HonestStep (jobs : List ClaimedJob) (s t : Session) : Type 0 where
    pub frame : BatchFrame jobs s t
    pub honest : All (IsHonestJob s t) jobs

  pub unchanged : (jobs : List ClaimedJob) (s : Session) → All (IsHonestJob s s) jobs
  unchanged [] s = tt
  unchanged (job ∷ jobs) s = (λ r e h. inl e, unchanged jobs s)

  -- After a first step that leaves the rows of later jobs alone.
  later_honest :
      (xs ys : List ClaimedJob) (s t u : Session)
      → BatchFrame xs s t
      → AreApart ys xs
      → All (IsHonestJob t u) ys
      → All (IsHonestJob s u) ys
  later_honest xs [] s t u f a h = tt
  later_honest xs (job ∷ ys) s t u f (n, a) (h, hs) = (
    λ r e k. elim (h r e k) [
      | inl before ↦ inl (sym (f.others job.id n) ∙ before)
      | inr own ↦ inr own
    ],
    later_honest xs ys s t u f a hs,
  )

  -- Before a last step that leaves the rows of earlier jobs alone.
  earlier_honest :
      (xs ys : List ClaimedJob) (s t u : Session)
      → BatchFrame ys t u
      → AreApart xs ys
      → All (IsHonestJob s t) xs
      → All (IsHonestJob s u) xs
  earlier_honest [] ys s t u f a h = tt
  earlier_honest (job ∷ xs) ys s t u f (n, a) (h, hs) = (
    λ r e k. elim (h r (sym (f.others job.id n) ∙ e) k) [
      | inl before ↦ inl before
      | inr own ↦ inr (HasOwn-grows job r t u f.grows own)
    ],
    earlier_honest xs ys s t u f a hs,
  )

  apart_one :
      (job : ClaimedJob) (jobs : List ClaimedJob) → Fresh job.id jobs → AreApart jobs (job ∷ [])
  apart_one job [] n = tt
  apart_one job (j ∷ jobs) (n, ns) = ((λ e. n (sym e), tt), apart_one job jobs ns)

  -- `fail_all` makes no job done.
  pub fail_all-honest :
      (jobs : List ClaimedJob) (message : String) (w : WatchCache)
      → Distinct jobs
      → All (IsHonestJob w.session (fail_all env jobs message w).session) jobs
  unfolding fail_all fail_job
  fail_all-honest [] message w ds = tt
  fail_all-honest (job ∷ jobs) message w (n, ds) =
      let u = mark_error-Updated env job.id w.session message in
      let w' = fail_job env job message w in
      let f = fail_all-BatchFrame env jobs message w' in
      (
        λ r e k. inl (ground (arith, u.own, f.others job.id n, e, k)),
        later_honest (job ∷ []) jobs w.session w'.session _
            (BatchFrame-cons job [] w.session w'.session w'.session u.frame
              (BatchFrame-nil w'.session))
            (apart_one job jobs n) (fail_all-honest jobs message w' ds),
      )

  -- Each job of the loop with the vector at its place in the batch.
  pub AllHonest-jobs :
      (all jobs_vectors : List (List Float)) (jobs : List ClaimedJob) (s t : Session)
      → embed_batch (map (λ (j : ClaimedJob). j.input_text) batch) ≡ ok all
      → length jobs_vectors ≡ length jobs
      → ((job : ClaimedJob) (v : List Float)
          → AtPlace job v jobs jobs_vectors
          → AtPlace job v batch all)
      → AllHonest env jobs jobs_vectors s t
      → All (IsHonestJob s t) jobs
  AllHonest-jobs all vectors [] s t e l p h = tt
  AllHonest-jobs all [] (job ∷ jobs) s t e l p h = absurd (omega (arith, l))
  AllHonest-jobs all (v ∷ vectors) (job ∷ jobs) s t e l p (h, hs) = (
    λ r x k. elim (h r x k) [
      | inl before ↦ inl before
      | inr own ↦ inr (own_vector v all e (p job v this) own)
    ],
    AllHonest-jobs all vectors jobs s t e (omega (arith, l)) (λ j x q. p j x (next q)) hs,
  )

  -- One step and then another, on jobs of other ids.
  pub both_honest :
      (jobs xs ys : List ClaimedJob) (s t u : Session)
      → ((i : ℕ) → Fresh i jobs → Fresh i xs × Fresh i ys)
      → ((P : ClaimedJob → Type 0) → All P xs → All P ys → All P jobs)
      → AreApart xs ys
      → HonestStep xs s t
      → HonestStep ys t u
      → HonestStep jobs s u
  both_honest jobs xs ys s t u f d a p q = record {
    frame = record {
      others = λ i h. q.frame.others i (f i h).1 ∙ p.frame.others i (f i h).0;
      grows = λ x h. q.frame.grows x (p.frame.grows x h);
      watched = q.frame.watched ∙ p.frame.watched;
      heads = q.frame.heads ∙ p.frame.heads;
    };
    honest =
        d (IsHonestJob s u) (earlier_honest xs ys s t u q.frame a p.honest)
          (later_honest xs ys s t u p.frame (AreApart-sym xs ys a) q.honest);
  }
