-- ===== src/Worker/Taken.antt =====
-- The jobs of a claim, with no other session and while the server answers, and what waits after they
-- have been dispatched.
use mathlib.Core.Option
use mathlib.Core.List.{Permᴰ}
use mathlib.Core.List.Permᴰ
use pgquarry.Base.{
  ℕ, ◌<◌, ◌≡◌, inl, inr, refl, sym, ◌∙◌, ap, subst, true, false, Bool, Option, none, some, List, [],
  ◌∷◌, Result, ok, err, All, arith, if◌then◌else◌, Bool-cases, Option-cases,
}
use pgquarry.Database.{JobRow, Database, processing, contains, select_pending, claim_pending_rows}
use pgquarry.Database.Rows.{row, heads, heads-update_rows}
use pgquarry.Store.{ClaimedJob, claim_pending}
use pgquarry.Store.Claim.{
  first, available, IsAscending, returned_ids, claim_pending_run, claim_pending-first,
  processing_since, taken,
}
use pgquarry.Store.Connection.{Env}
use pgquarry.Watch.{WatchCache}
use pgquarry.Watch.Refines.{NoFaults, InSync}
use pgquarry.Dispatch.Batch.{Fresh, Distinct}
use pgquarry.Dispatch.Settled.{HasRow, InSync-of_session}
use pgquarry.Worker.Backlog.{nobody, waiting, drop, IsFinal, is_waiting, waiting-same, All-imp}
use pgquarry.Worker.Claimed.{
  claim_rows, waiting-claim_rows, Waits, waiting-Waits, All-first, All-contains, contained, row-id,
  waiting-IsAscending, first-IsAscending,
}
use pgquarry.Store.Returned.{Perm-All, Perm-contains, Perm-AreSeparate}
use pgquarry.Worker.Dealt.{job_ids, AreSeparate-Distinct, IsAscending-AreSeparate}
use pgquarry.Worker.Processed.{Processes, IsFinal-row}
use pgquarry.Worker.Steady.{IsSteady, Advances, KnownHead, heads-ids, known-heads, heads-IsKnown}

-- No other session holds a row of pgquarry.jobs.
abbrev pub NoLocks : Env → Type 0
NoLocks env = (n : ℕ) → env.locked n ≡ nobody

-- What holds of the ids holds of the jobs, and back.
All-of_ids :
    (P : ℕ → Type 0) (jobs : List ClaimedJob)
    → All P (job_ids jobs)
    → All (λ (j : ClaimedJob). P j.id) jobs
All-of_ids P [] a = tt
All-of_ids P (j ∷ jobs) (p, a) = (p, All-of_ids P jobs a)

All-to_ids :
    (P : ℕ → Type 0) (jobs : List ClaimedJob)
    → All (λ (j : ClaimedJob). P j.id) jobs
    → All P (job_ids jobs)
All-to_ids P [] a = tt
All-to_ids P (j ∷ jobs) (p, a) = (p, All-to_ids P jobs a)

Fresh-contains : (i : ℕ) (jobs : List ClaimedJob) → contains (job_ids jobs) i ≡ false → Fresh i jobs
Fresh-contains i [] h = tt
Fresh-contains i (j ∷ jobs) h =
    (λ e. ground (arith, h, e), Fresh-contains i jobs (ground (arith, h)))

IsFinal-waiting : (i : ℕ) (rows : List JobRow) → IsFinal i rows → is_waiting (row i rows) ≡ false
IsFinal-waiting i rows (inl h) = rw h refl
IsFinal-waiting i rows (inr (r, h, k)) = rw h (ground (arith, k))

map_same :
    (f g : JobRow → JobRow)
    → ((r : JobRow) → f r ≡ g r)
    → (o : Option JobRow) → Option.map f o ≡ Option.map g o
map_same f g h none = refl
map_same f g h (some r) = ap some (h r)

-- The session after a claim, by its rows.
pub record Claimed (limit : ℕ) (w w' : WatchCache) (claimed : List ClaimedJob) : Type 0 where
  pub ids_taken : Permᴰ (job_ids claimed) (first limit (waiting w.session.db.jobs))
  pub left : waiting w'.session.db.jobs ≡ drop limit (waiting w.session.db.jobs)
  pub heads : heads w'.session.db.jobs ≡ heads w.session.db.jobs
  pub watched : w'.session.db.watched ≡ w.session.db.watched
  pub at : ℕ
  pub rows :
      (i : ℕ)
      → row i w'.session.db.jobs
        ≡ Option.map
            (λ (r : JobRow). if contains (job_ids claimed) r.id then processing_since at r else r)
            (row i w.session.db.jobs)
  pub in_sync : InSync w'

module _ (limit : ℕ) (w w' : WatchCache) (claimed : List ClaimedJob) (s : IsSteady w)
    (c : Claimed limit w w' claimed) where
  claimed-row :
      (i : ℕ)
      → contains (job_ids claimed) i ≡ true
      → (r : JobRow) × (row i w'.session.db.jobs ≡ some r) × (r.status ≡ processing)
  claimed-row i h =
      let waits = Perm-All (Waits w.session.db.jobs) (Permᴰ.symm c.ids_taken) (
        All-first (Waits w.session.db.jobs) limit (waiting w.session.db.jobs)
          (waiting-Waits w.session.db.jobs s.ascending)) in
      let (r, e, p) = contained (Waits w.session.db.jobs) (job_ids claimed) i waits h in
      let k = row-id i w.session.db.jobs r e in
      (processing_since c.at r, c.rows i ∙ rw (e, k, h) refl, refl)

  free_row :
      (i : ℕ)
      → contains (job_ids claimed) i ≡ false
      → row i w'.session.db.jobs ≡ row i w.session.db.jobs
  free_row i h = elim (Option-cases (row i w.session.db.jobs)) [
    | inl e ↦ c.rows i ∙ rw e refl
    | inr (r, e) ↦ let k = row-id i w.session.db.jobs r e in c.rows i ∙ rw (e, k, h) refl
  ]

  -- The jobs have rows.
  pub claimed-HasRow : All (λ job. HasRow job w'.session) claimed
  claimed-HasRow =
      All-of_ids (λ i. (r : JobRow) × (row i w'.session.db.jobs ≡ some r)) claimed
        (All-imp (λ i. contains (job_ids claimed) i ≡ true)
          (λ i. (r : JobRow) × (row i w'.session.db.jobs ≡ some r))
          (λ i h. let (r, e, p) = claimed-row i h in (r, e)) (job_ids claimed)
          (All-contains (job_ids claimed)))

  pub claimed-Distinct : Distinct claimed
  claimed-Distinct = AreSeparate-Distinct claimed (
      Perm-AreSeparate (Permᴰ.symm c.ids_taken) (
        IsAscending-AreSeparate _ (
          first-IsAscending limit (waiting w.session.db.jobs)
            (waiting-IsAscending w.session.db.jobs s.ascending))))

  -- After the dispatch the same jobs wait as after the claim.
  processed_waiting :
      (v : WatchCache)
      → Processes claimed w' v
      → waiting v.session.db.jobs ≡ waiting w'.session.db.jobs
  processed_waiting v p =
      let ended = All-to_ids (λ i. IsFinal i v.session.db.jobs) claimed p.ended in
      waiting-same w'.session.db.jobs v.session.db.jobs
        (heads-ids w'.session.db.jobs v.session.db.jobs p.heads)
        (subst IsAscending (sym (heads-ids w.session.db.jobs w'.session.db.jobs c.heads))
          s.ascending)
        (λ i. elim (Bool-cases (contains (job_ids claimed) i)) [
          | inl h ↦
              let (r, e, k) = claimed-row i h in
              let final =
                contained (λ j. IsFinal j v.session.db.jobs) (job_ids claimed) i ended h in
              IsFinal-waiting i v.session.db.jobs final ∙ sym (rw (e, k) refl)
          | inr h ↦ ap is_waiting (p.others i (Fresh-contains i claimed h))
        ])

  processed-IsFinal :
      (v : WatchCache)
      → Processes claimed w' v
      → (i : ℕ) → IsFinal i w.session.db.jobs
      → IsFinal i v.session.db.jobs
  processed-IsFinal v p i f = elim (Bool-cases (contains (job_ids claimed) i)) [
    | inl h ↦
        contained (λ j. IsFinal j v.session.db.jobs) (job_ids claimed) i
          (All-to_ids (λ j. IsFinal j v.session.db.jobs) claimed p.ended) h
    | inr h ↦
        IsFinal-row i w.session.db.jobs v.session.db.jobs
          (p.others i (Fresh-contains i claimed h) ∙ free_row i h) f
  ]

  pub processed-Advances : (v : WatchCache) → Processes claimed w' v → Advances limit w v
  processed-Advances v p =
      let before = w.session.db.jobs in
      let after = v.session.db.jobs in
      let is = heads-ids before after (p.heads ∙ c.heads) in
      let ended = All-to_ids (λ i. IsFinal i after) claimed p.ended in
      record {
        ended = Perm-All (λ i. IsFinal i after) c.ids_taken ended;
        left = processed_waiting v p ∙ c.left;
        final = processed-IsFinal v p;
        steady = record {
          ascending = subst IsAscending (sym is) s.ascending;
          known =
              heads-IsKnown after
                (subst (All KnownHead) (sym (p.heads ∙ c.heads)) (known-heads before s.known));
          kinds = rw (p.watched ∙ c.watched) s.kinds;
          in_sync = p.in_sync;
        };
        bounded = λ b h. subst (All (λ i. i < b)) (sym is) h;
      }

module _ (env : Env) (n : NoFaults env) (l : NoLocks env) (limit : ℕ) (w : WatchCache)
    (s : IsSteady w) where
  claim_db :
      (claim_pending env limit w.session).1.db
      ≡ (claim_pending_rows
          (env.rank w.session.sent)
          nobody
          limit
          (env.now w.session.sent)
          w.session.db).0
  claim_db =
      (claim_pending_run env limit w.session (n w.session.sent)).1
      ∙ ap
          (λ f.
            (claim_pending_rows (env.rank w.session.sent) f limit (env.now w.session.sent)
              w.session.db).0)
          (l w.session.sent)

  pub claim-Claimed :
      (claimed : List ClaimedJob)
      → (claim_pending env limit w.session).0 ≡ ok claimed
      → Claimed limit w (record w { session = (claim_pending env limit w.session).1 }) claimed
  unfolding claim_pending_rows
  claim-Claimed claimed e =
      let before = w.session in
      let now = env.now before.sent in
      let after = (claim_pending env limit before).1 in
      let j : after.db.jobs ≡ claim_rows limit now before.db.jobs =
        ap (λ (d : Database). d.jobs) claim_db in
      let k : after.db.watched ≡ before.db.watched = ap (λ (d : Database). d.watched) claim_db in
      let facts = claim_pending-first env limit before (n before.sent) s.ascending s.known in
      let free : taken env limit before ≡ first limit (waiting before.db.jobs) =
        ap (λ f. first limit (available f before.db.jobs)) (l before.sent) in
      let (returned, given, order) = facts.0 in
      let ids_given : some (job_ids claimed) ≡ some returned = sym (ap returned_ids e) ∙ given in
      let same : returned ≡ job_ids claimed = cc in
      let taken_order : Permᴰ (job_ids claimed) (taken env limit before) =
        subst (λ is. Permᴰ is (taken env limit before)) same order in
      record {
        ids_taken = subst (Permᴰ (job_ids claimed)) free taken_order;
        left = ap waiting j ∙ waiting-claim_rows limit now before.db.jobs s.ascending;
        heads =
            ap heads j
            ∙ heads-update_rows (λ r. contains (select_pending nobody limit before.db.jobs) r.id)
                (processing_since now) (λ r. refl) before.db.jobs;
        watched = k;
        at = now;
        rows = λ i.
            facts.1 i
            ∙ map_same _
                (λ (r : JobRow).
                  if contains (job_ids claimed) r.id then processing_since now r else r)
                (λ (r : JobRow).
                  ap (λ (b : Bool). if b then processing_since now r else r)
                    (sym (Perm-contains r.id taken_order)))
                (row i before.db.jobs);
        in_sync = InSync-of_session w after k s.in_sync;
      }

  pub claim_returns :
      (r : Result (List ClaimedJob))
      → (claim_pending env limit w.session).0 ≡ r
      → (claimed : List ClaimedJob) × (r ≡ ok claimed)
  claim_returns (ok claimed) e = (claimed, refl)
  claim_returns (err m) e = absurd (
      ground (
        arith,
        ap returned_ids e,
        (claim_pending-first env limit w.session (n w.session.sent) s.ascending s.known).0.1,
      ))
