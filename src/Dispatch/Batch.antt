-- ===== src/Dispatch/Batch.antt =====
-- A whole batch, whatever the server answers: only rows of the batch change, and a job becomes done
-- only if its own result has been written.
use pgquarry.Base.{
  ℕ, String, ℤ, ◌≡◌, ◌≢◌, ◌⊎◌, inl, inr, refl, sym, ◌∙◌, Option, some, List, [], ◌∷◌, Result, All,
}
use pgquarry.Database.{JobRow, done, Write}
use pgquarry.Database.Rows.{row, heads, Wrote}
use pgquarry.Store.{ClaimedJob}
use pgquarry.Store.Connection.{Env, Session}
use pgquarry.Store.Effects.{Frame}
use pgquarry.Store.Literal.{Float, vector_literal}
use pgquarry.Watch.{WatchCache}
use pgquarry.Dispatch.{embed_job, embed_jobs, generate_job, generate_jobs, dispatch_generate_jobs}
use pgquarry.Dispatch.Honest.{IsDelivered, ad_hoc, mapped, IsHonest}
use pgquarry.Dispatch.Rounds.{embed_job-IsHonest, generate_job-IsHonest, produced}

-- No job of the list has the id.
abbrev pub Fresh : ℕ → List ClaimedJob → Type 0
Fresh i jobs = All (λ job. i ≢ job.id) jobs

-- No two jobs of the list have the same id.
abbrev pub Distinct : List ClaimedJob → Type 0
Distinct [] = Unit {0}
Distinct (job ∷ jobs) = Fresh job.id jobs × Distinct jobs

-- From `s` to `t`, a job that is done at the end was done before, or its result was written.
abbrev pub HonestAt :
    Env → (JobRow → Option String) → ClaimedJob → String → Session → Session → Type 0
HonestAt env got job value s t =
    (r : JobRow)
    → row job.id t.db.jobs ≡ some r
    → r.status ≡ done
    → (row job.id s.db.jobs ≡ some r) ⊎ IsDelivered env got job value r t

-- From `s` to `t` only rows of the jobs change, and these keep id and kind; no executed write is
-- forgotten, and the registered mappings stay.
pub record BatchFrame (jobs : List ClaimedJob) (s t : Session) : Type 0 where
  pub others : (i : ℕ) → Fresh i jobs → row i t.db.jobs ≡ row i s.db.jobs
  pub grows : (x : Write) → Wrote x s.db.writes → Wrote x t.db.writes
  pub watched : t.db.watched ≡ s.db.watched
  pub heads : heads t.db.jobs ≡ heads s.db.jobs

pub BatchFrame-nil : (s : Session) → BatchFrame [] s s
BatchFrame-nil s = record { others = λ i h. refl; grows = λ x h. h; watched = refl; heads = refl }

pub BatchFrame-cons :
    (job : ClaimedJob) (jobs : List ClaimedJob) (s t u : Session)
    → Frame job.id s t
    → BatchFrame jobs t u
    → BatchFrame (job ∷ jobs) s u
BatchFrame-cons job jobs s t u f g = record {
  others = λ i h. g.others i h.1 ∙ f.others i h.0;
  grows = λ x h. g.grows x (f.grows x h);
  watched = g.watched ∙ f.watched;
  heads = g.heads ∙ f.heads;
}

pub IsDelivered-grows :
    (env : Env) (got : JobRow → Option String) (job : ClaimedJob) (value : String) (r : JobRow)
    (t u : Session)
    → ((x : Write) → Wrote x t.db.writes → Wrote x u.db.writes)
    → IsDelivered env got job value r t
    → IsDelivered env got job value r u
IsDelivered-grows env got job value r t u g (ad_hoc n e) = ad_hoc n e
IsDelivered-grows env got job value r t u g (mapped source sql e x) = mapped source sql e (g _ x)

module _ (env : Env) (got : JobRow → Option String) where
  -- The first job: the later rounds leave its row alone.
  HonestAt-first :
      (job : ClaimedJob) (jobs : List ClaimedJob) (value : String) (s t u : Session)
      → IsHonest env got job value s t
      → BatchFrame jobs t u
      → Fresh job.id jobs
      → HonestAt env got job value s u
  HonestAt-first job jobs value s t u h f n r e d =
      elim (h.written r (sym (f.others job.id n) ∙ e) d) [
        | inl before ↦ inl before
        | inr x ↦ inr (IsDelivered-grows env got job value r t u f.grows x)
      ]

  -- A later job: the first round has left its row alone.
  HonestAt-later :
      (first : ℕ) (job : ClaimedJob) (value : String) (s t u : Session)
      → Frame first s t
      → first ≢ job.id
      → HonestAt env got job value t u
      → HonestAt env got job value s u
  HonestAt-later first job value s t u f n h r e d = elim (h r e d) [
    | inl before ↦ inl (sym (f.others job.id (λ p. n (sym p))) ∙ before)
    | inr x ↦ inr x
  ]

-- Each job with the vector at its place.
abbrev pub AllHonest : Env → List ClaimedJob → List (List Float) → Session → Session → Type 0
AllHonest env [] vectors s t = Unit {0}
AllHonest env (job ∷ jobs) [] s t = Unit {0}
AllHonest env (job ∷ jobs) (v ∷ vectors) s t =
    HonestAt env (λ r. r.result) job (vector_literal env.print_float v) s t
    × AllHonest env jobs vectors s t

AllHonest-later :
    (env : Env) (first : ℕ) (jobs : List ClaimedJob) (vectors : List (List Float)) (s t u : Session)
    → Frame first s t
    → Fresh first jobs
    → AllHonest env jobs vectors t u
    → AllHonest env jobs vectors s u
AllHonest-later env first [] vectors s t u f n h = tt
AllHonest-later env first (job ∷ jobs) [] s t u f n h = tt
AllHonest-later env first (job ∷ jobs) (v ∷ vectors) s t u f n h = (
  HonestAt-later env _ first job _ s t u f n.0 h.0,
  AllHonest-later env first jobs vectors s t u f n.1 h.1,
)

-- The loop of `dispatch_embed_jobs` changes rows of the batch alone, forgets no executed write, and
-- makes a job done only if the vector at the place of the job was written: into the row of an ad hoc
-- job, or by an executed statement for the source row of any other. This holds whichever
-- statements fail, for jobs of distinct ids.
pub embed_jobs_honest :
    (env : Env) (jobs : List ClaimedJob) (vectors : List (List Float)) (written : ℕ)
    (w : WatchCache)
    → Distinct jobs
    → BatchFrame jobs w.session (embed_jobs env jobs vectors written w).1.session
      × AllHonest env jobs vectors w.session (embed_jobs env jobs vectors written w).1.session
unfolding embed_jobs
embed_jobs_honest env [] [] written w d = (BatchFrame-nil w.session, tt)
embed_jobs_honest env [] (v ∷ vectors) written w d = (BatchFrame-nil w.session, tt)
embed_jobs_honest env (job ∷ jobs) [] written w d =
    (record { others = λ i h. refl; grows = λ x h. h; watched = refl; heads = refl }, tt)
embed_jobs_honest env (job ∷ jobs) (v ∷ vectors) written w (n, d) =
    let (written', w') = embed_job env job v written w in
    let h = embed_job-IsHonest env job v written w in
    let (f, rest) = embed_jobs_honest env jobs vectors written' w' d in
    (
      BatchFrame-cons job jobs w.session w'.session _ h.frame f,
      (
        HonestAt-first env _ job jobs _ w.session w'.session _ h f n,
        AllHonest-later env job.id jobs vectors w.session w'.session _ h.frame n rest,
      ),
    )

All_later :
    (env : Env) (value : ClaimedJob → String) (first : ℕ) (jobs : List ClaimedJob) (s t u : Session)
    → Frame first s t
    → Fresh first jobs
    → All (λ job. HonestAt env (λ r. r.result_text) job (value job) t u) jobs
    → All (λ job. HonestAt env (λ r. r.result_text) job (value job) s u) jobs
All_later env value first [] s t u f n h = tt
All_later env value first (job ∷ jobs) s t u f n h = (
  HonestAt-later env _ first job (value job) s t u f n.0 h.0,
  All_later env value first jobs s t u f n.1 h.1,
)

pub generate_jobs_honest :
    (env : Env) (provider : Option (String → ℤ → Result String)) (d : ℤ) (jobs : List ClaimedJob)
    (written : ℕ) (w : WatchCache)
    → Distinct jobs
    → BatchFrame jobs w.session (generate_jobs env provider d jobs written w).1.session
      × All
          (λ job.
            HonestAt env
              (λ r. r.result_text)
              job
              (produced provider d job)
              w.session
              (generate_jobs env provider d jobs written w).1.session)
          jobs
unfolding generate_jobs
generate_jobs_honest env provider d [] written w n = (BatchFrame-nil w.session, tt)
generate_jobs_honest env provider d (job ∷ jobs) written w (n, ns) =
    let (written', w') = generate_job env provider d job written w in
    let h = generate_job-IsHonest env provider d job written w in
    let (f, rest) = generate_jobs_honest env provider d jobs written' w' ns in
    (
      BatchFrame-cons job jobs w.session w'.session _ h.frame f,
      (
        HonestAt-first env _ job jobs _ w.session w'.session _ h f n,
        All_later env (produced provider d) job.id jobs w.session w'.session _ h.frame n rest,
      ),
    )

-- `dispatch_generate_jobs` changes rows of the batch alone, forgets no executed write, and makes a
-- job done only if the text that the provider returned for it was written: into the row of an ad hoc
-- job, or by an executed statement for the source row of any other. This holds whichever
-- statements fail, for jobs of distinct ids.
pub dispatch_generate_jobs_honest :
    (env : Env) (provider : Option (String → ℤ → Result String)) (d : ℤ) (jobs : List ClaimedJob)
    (w : WatchCache)
    → Distinct jobs
    → BatchFrame jobs w.session (dispatch_generate_jobs env provider d jobs w).1.session
      × All
          (λ job.
            HonestAt env
              (λ r. r.result_text)
              job
              (produced provider d job)
              w.session
              (dispatch_generate_jobs env provider d jobs w).1.session)
          jobs
unfolding dispatch_generate_jobs
dispatch_generate_jobs_honest env provider d jobs w n =
    generate_jobs_honest env provider d jobs 0 w n
