-- ===== src/Store/Claim.antt =====
-- `JobStore::claim_pending`: the jobs that it returns are the oldest that wait and that no other
-- session holds, and their rows are then being processed.
use mathlib.Core.Option
use mathlib.Core.List.{Permᴰ}
use pgquarry.Base.{
  ℕ, zero, suc, ◌<◌, ◌≡◌, ◌⊎◌, inl, inr, refl, sym, subst, ◌∙◌, ap, Bool, true, false, not, ◌&&◌,
  Option, none, some, List, [], ◌∷◌, map, arith, if◌then◌else◌, All, Bool-cases, Result, ok, err,
}
use pgquarry.Job.{JobType, job_type_from_string, embed, generate}
use pgquarry.Database.{
  processing, JobRow, Database, is_pending, update_rows, contains, select_pending,
  claim_pending_rows, select_rows, returning,
}
use pgquarry.Database.Rows.{row, row-update_rows}
use pgquarry.Database.Claims.{All-update_rows}
use pgquarry.Store.{ClaimedJob, claimed_job, cons_job, claimed_jobs, claim_pending}
use pgquarry.Store.Returned.{returning-Perm, returning-All}
use pgquarry.Store.Connection.{Env, Session, statement, failing_with}

abbrev pub first : ℕ → List ℕ → List ℕ
first zero xs = []
first (suc n) [] = []
first (suc n) (x ∷ xs) = x ∷ first n xs

abbrev pub ids : List JobRow → List ℕ
ids rows = map (λ (r : JobRow). r.id) rows

-- The rows that wait and that no other session holds.
abbrev pub available : (ℕ → Bool) → List JobRow → List ℕ
available locked rows = ids (select_rows (λ r. is_pending r.status && not (locked r.id)) rows)

select_pending-first :
    (locked : ℕ → Bool) (n : ℕ) (rows : List JobRow)
    → select_pending locked n rows ≡ first n (available locked rows)
unfolding select_pending select_rows
select_pending-first locked zero [] = refl
select_pending-first locked (suc n) [] = refl
select_pending-first locked zero (r ∷ rows) = refl
select_pending-first locked (suc n) (r ∷ rows) =
    elim (Bool-cases (is_pending r.status && not (locked r.id))) [
      | inl h ↦ rw h (ap (λ xs. r.id ∷ xs) (select_pending-first locked n rows))
      | inr h ↦ rw h (select_pending-first locked (suc n) rows)
    ]

-- Rising numbers.
abbrev pub IsAscending : List ℕ → Type 0
IsAscending [] = Unit
IsAscending (x ∷ xs) = All (λ y. x < y) xs × IsAscending xs

keep : List ℕ → List ℕ → List ℕ
keep taken [] = []
keep taken (x ∷ xs) = if contains taken x then x ∷ keep taken xs else keep taken xs

keep-above : (x : ℕ) (taken xs : List ℕ) → All (λ y. x < y) xs → keep (x ∷ taken) xs ≡ keep taken xs
unfolding keep
keep-above x taken [] a = refl
keep-above x taken (y ∷ xs) (l, a) = ground (arith, l, keep-above x taken xs a)

pub select_pending-above :
    (locked : ℕ → Bool) (n x : ℕ) (rows : List JobRow)
    → All (λ y. x < y) (ids rows)
    → contains (select_pending locked n rows) x ≡ false
unfolding select_pending
select_pending-above locked n x [] a = refl
select_pending-above locked zero x (r ∷ rows) a = refl
select_pending-above locked (suc n) x (r ∷ rows) (l, a) =
    ground (
      arith,
      l,
      select_pending-above locked n x rows a,
      select_pending-above locked (suc n) x rows a,
    )

keep-nil : (xs : List ℕ) → keep [] xs ≡ []
unfolding keep
keep-nil [] = refl
keep-nil (x ∷ xs) = keep-nil xs

keep_self :
    (x : ℕ) (taken xs : List ℕ)
    → All (λ y. x < y) xs
    → keep (x ∷ taken) (x ∷ xs) ≡ x ∷ keep taken xs
unfolding keep
keep_self x taken xs a = ground (arith, keep-above x taken xs a)

-- The two rounds of the selection.
pub select_pending_takes :
    (locked : ℕ → Bool) (n : ℕ) (r : JobRow) (rows : List JobRow)
    → is_pending r.status && not (locked r.id) ≡ true
    → select_pending locked (suc n) (r ∷ rows) ≡ r.id ∷ select_pending locked n rows
unfolding select_pending
select_pending_takes locked n r rows h = rw h refl

pub select_pending_skips :
    (locked : ℕ → Bool) (n : ℕ) (r : JobRow) (rows : List JobRow)
    → is_pending r.status && not (locked r.id) ≡ false
    → select_pending locked (suc n) (r ∷ rows) ≡ select_pending locked (suc n) rows
unfolding select_pending
select_pending_skips locked n r rows h = rw h refl

keep-skip :
    (x : ℕ) (taken xs : List ℕ) → contains taken x ≡ false → keep taken (x ∷ xs) ≡ keep taken xs
unfolding keep
keep-skip x taken xs h = rw h refl

keep-select_pending :
    (locked : ℕ → Bool) (n : ℕ) (rows : List JobRow)
    → IsAscending (ids rows)
    → keep (select_pending locked n rows) (ids rows) ≡ select_pending locked n rows
unfolding select_pending keep
keep-select_pending locked n [] a = refl
keep-select_pending locked zero (r ∷ rows) a = keep-nil (ids rows)
keep-select_pending locked (suc n) (r ∷ rows) (l, a) =
    elim (Bool-cases (is_pending r.status && not (locked r.id))) [
      | inl h ↦
          subst (λ taken. keep taken (ids (r ∷ rows)) ≡ taken)
            (sym (select_pending_takes locked n r rows h))
            (keep_self r.id (select_pending locked n rows) (ids rows) l
              ∙ ap (λ xs. r.id ∷ xs) (keep-select_pending locked n rows a))
      | inr h ↦
          subst (λ taken. keep taken (ids (r ∷ rows)) ≡ taken)
            (sym (select_pending_skips locked n r rows h))
            (keep-skip r.id (select_pending locked (suc n) rows) (ids rows)
                (select_pending-above locked (suc n) r.id rows l)
              ∙ keep-select_pending locked (suc n) rows a)
    ]

select_rows-keep :
    (taken : List ℕ) (set : JobRow → JobRow)
    → ((r : JobRow) → (set r).id ≡ r.id)
    → (rows : List JobRow)
    → ids (select_rows (λ r. contains taken r.id) (update_rows (λ r. contains taken r.id) set rows))
      ≡ keep taken (ids rows)
unfolding select_rows update_rows keep
select_rows-keep taken set k [] = refl
select_rows-keep taken set k (r ∷ rows) = elim (Bool-cases (contains taken r.id)) [
  | inl h ↦ rw (h, k r, h) (ap (λ xs. r.id ∷ xs) (select_rows-keep taken set k rows))
  | inr h ↦ rw (h, h) (select_rows-keep taken set k rows)
]

-- A row whose kind of job the program knows.
abbrev pub IsKnown : JobRow → Type 0
IsKnown r = (r.job_type ≡ "embed") ⊎ (r.job_type ≡ "generate")

known_type : (r : JobRow) → IsKnown r → (t : JobType) × (job_type_from_string r.job_type ≡ ok t)
unfolding job_type_from_string
known_type r (inl e) = (embed, rw e refl)
known_type r (inr e) = (generate, rw e refl)

-- The ids of the jobs returned.
abbrev pub returned_ids : Result (List ClaimedJob) → Option (List ℕ)
returned_ids (err e) = none
returned_ids (ok jobs) = some (map (λ (j : ClaimedJob). j.id) jobs)

as_job : JobRow → JobType → ClaimedJob
as_job r t = record {
  id = r.id;
  source_table = r.source_table;
  source_id = r.source_id;
  source_column = r.source_column;
  input_text = r.input_text;
  job_type = t;
  max_tokens = r.max_tokens;
}

claimed_job-known :
    (r : JobRow) (t : JobType)
    → job_type_from_string r.job_type ≡ ok t
    → claimed_job r ≡ ok (as_job r t)
unfolding claimed_job as_job
claimed_job-known r t h = rw (claimed_job, h) refl

cons_ids :
    (r : JobRow) (t : JobType) (jobs : Result (List ClaimedJob))
    → returned_ids (cons_job (ok (as_job r t)) jobs)
      ≡ Option.map (λ is. r.id ∷ is) (returned_ids jobs)
unfolding as_job
cons_ids r t (err e) = refl
cons_ids r t (ok jobs) = refl

claimed_jobs-ids :
    (rows : List JobRow) → All IsKnown rows → returned_ids (claimed_jobs rows) ≡ some (ids rows)
unfolding claimed_jobs
claimed_jobs-ids [] a = refl
claimed_jobs-ids (r ∷ rows) (k, a) =
    let (t, e) = known_type r k in
    ap (λ j. returned_ids (cons_job j (claimed_jobs rows))) (claimed_job-known r t e)
    ∙ cons_ids r t (claimed_jobs rows)
    ∙ ap (Option.map (λ is. r.id ∷ is)) (claimed_jobs-ids rows a)

All-select_rows :
    (P : JobRow → Type 0) (here : JobRow → Bool) (rows : List JobRow)
    → All P rows
    → All P (select_rows here rows)
unfolding select_rows
All-select_rows P here [] a = tt
All-select_rows P here (r ∷ rows) (p, a) = elim (Bool-cases (here r)) [
  | inl h ↦ rw h (p, All-select_rows P here rows a)
  | inr h ↦ rw h (All-select_rows P here rows a)
]

abbrev pub processing_since : ℕ → JobRow → JobRow
processing_since now r = record r { status = processing; updated_at = now }

-- The ids that the statement takes: the oldest of those that it may take.
abbrev pub taken : Env → ℕ → Session → List ℕ
taken env limit s = first limit (available (env.locked s.sent) s.db.jobs)

module _ (env : Env) (limit : ℕ) (s : Session) where
  pub claim_pending_run :
      env.fault s.sent ≡ none
      → let run =
          claim_pending_rows (env.rank s.sent) (env.locked s.sent) limit (env.now s.sent) s.db in
        ((claim_pending env limit s).0 ≡ claimed_jobs run.1)
        × ((claim_pending env limit s).1.db ≡ run.0)
  unfolding claim_pending failing_with statement
  claim_pending_run f = ground (arith, f)

  -- Where the server executes the statement, the rows of `jobs` have rising ids and known kinds,
  -- `claim_pending` returns jobs and does not throw. They are those of the first `limit` rows by id that
  -- are pending and that no other session holds, each once and in the order in which the server
  -- returns them, whatever that is; exactly their rows are processing from then on, and all other
  -- rows stay as they were.
  pub claim_pending-first :
      env.fault s.sent ≡ none
      → IsAscending (ids s.db.jobs)
      → All IsKnown s.db.jobs
      → ((claimed : List ℕ) × (returned_ids (claim_pending env limit s).0 ≡ some claimed)
          × Permᴰ claimed (taken env limit s))
        × ((i : ℕ)
            → row i (claim_pending env limit s).1.db.jobs
              ≡ Option.map
                  (λ r.
                    if contains (taken env limit s) r.id
                    then processing_since (env.now s.sent) r
                    else r)
                  (row i s.db.jobs))
  unfolding claim_pending_rows
  claim_pending-first f a k =
      let selected = select_pending (env.locked s.sent) limit s.db.jobs in
      let set = processing_since (env.now s.sent) in
      let here = λ (r : JobRow). contains selected r.id in
      let e = select_pending-first (env.locked s.sent) limit s.db.jobs in
      let rows = select_rows here (update_rows here set s.db.jobs) in
      let all_known : All IsKnown rows =
        All-select_rows IsKnown here (update_rows here set s.db.jobs)
          (All-update_rows IsKnown here set (λ r h. h) s.db.jobs k) in
      let same : ids rows ≡ taken env limit s =
        select_rows-keep selected set (λ r. refl) s.db.jobs
        ∙ keep-select_pending (env.locked s.sent) limit s.db.jobs a
        ∙ e in
      let run = claim_pending_run f in
      (
        (
          ids (returning (env.rank s.sent) rows),
          ap returned_ids run.0
              ∙ claimed_jobs-ids (returning (env.rank s.sent) rows)
                  (returning-All IsKnown (env.rank s.sent) rows all_known),
          subst (λ is. Permᴰ (ids (returning (env.rank s.sent) rows)) is) same
              (returning-Perm (env.rank s.sent) rows),
        ),
        λ i.
            ap (λ (d : Database). row i d.jobs) run.1
            ∙ row-update_rows here set (λ r. refl) i s.db.jobs
            ∙ ap (λ is. Option.map (λ r. if contains is r.id then set r else r) (row i s.db.jobs))
                e,
      )
