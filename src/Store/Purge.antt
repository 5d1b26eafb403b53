-- ===== src/Store/Purge.antt =====
-- `JobStore::purge_done`: the rows that it deletes, the number that it returns and the rows that it
-- logs.
use pgquarry.Base.{
  ℕ, suc, ◌+◌, ◌≤◌, ◌<◌, ◌≢◌, ◌⊎◌, subst, ltb, String, ◌≡◌, inl, inr, refl, sym, ap, ◌∙◌, Bool,
  true, false, not, none, some, List, [], ◌∷◌, ◌++◌, map, arith, length, All, Bool-cases, ok,
}
use mathlib.Core.List.{append_assoc, append-nil}
use pgquarry.Database.{
  Status, done, is_done, JobRow, Database, delete_rows, select_rows, purgeable, purge_rows,
}
use pgquarry.Store.{log_candidates, purge_verbosely, with_interval, purge_done}
use pgquarry.Store.Connection.{Env, Session, statement, failing_with}

-- The rows that a purge leaves.
abbrev pub kept : ℕ → ℕ → List JobRow → List JobRow
kept age now rows = select_rows (λ r. not (purgeable age now r)) rows

delete_rows-select_rows :
    (here : JobRow → Bool) (rows : List JobRow)
    → delete_rows here rows ≡ select_rows (λ r. not (here r)) rows
unfolding delete_rows select_rows
delete_rows-select_rows here [] = refl
delete_rows-select_rows here (r ∷ rows) = elim (Bool-cases (here r)) [
  | inl h ↦ rw h (delete_rows-select_rows here rows)
  | inr h ↦ rw h (ap (λ rs. r ∷ rs) (delete_rows-select_rows here rows))
]

select_rows-length :
    (here : JobRow → Bool) (rows : List JobRow)
    → length rows ≡ length (select_rows (λ r. not (here r)) rows) + length (select_rows here rows)
unfolding select_rows
select_rows-length here [] = omega arith
select_rows-length here (r ∷ rows) = elim (Bool-cases (here r)) [
  | inl h ↦ rw h (omega (arith, select_rows-length here rows))
  | inr h ↦ rw h (omega (arith, select_rows-length here rows))
]

-- What is logged of a row.
abbrev pub log_entry : JobRow → ℕ × Status × ℕ
log_entry r = (r.id, r.status, r.created_at)

log_candidates-map :
    (env : Env) (rows : List JobRow) (s : Session)
    → log_candidates env rows s ≡ record s { purge_log = s.purge_log ++ map log_entry rows }
unfolding log_candidates
log_candidates-map env [] s = ap (λ l. record s { purge_log = l }) (sym (append-nil s.purge_log))
log_candidates-map env (r ∷ rows) s =
    log_candidates-map env rows (record s { purge_log = s.purge_log ++ log_entry r ∷ [] })
    ∙ ap (λ l. record s { purge_log = l })
        (append_assoc s.purge_log (log_entry r ∷ []) (map log_entry rows))

-- The rows that a purge deletes.
abbrev pub purged : ℕ → ℕ → List JobRow → List JobRow
purged age now rows = select_rows (purgeable age now) rows

kept-purged :
    (age now : ℕ) (db : Database)
    → ((purge_rows age now db).jobs ≡ kept age now db.jobs)
      × (length db.jobs ≡ length (purge_rows age now db).jobs + length (purged age now db.jobs))
unfolding purge_rows
kept-purged age now db =
    let e = delete_rows-select_rows (purgeable age now) db.jobs in
    (e, omega (arith, ap length e, select_rows-length (purgeable age now) db.jobs))

-- A purge of rows at a time: those that are done, and were updated longer ago than the age, go; all
-- others stay, in their order. Counted are those that go.
pub data Purges (age now : ℕ) : List JobRow → List JobRow → ℕ → Type 0 where
  no_rows : Purges age now [] [] 0
  goes :
      {r : JobRow} {rows left : List JobRow} {n : ℕ}
      → r.status ≡ done
      → r.updated_at + age < now
      → Purges age now rows left n
      → Purges age now (r ∷ rows) left (suc n)
  stays :
      {r : JobRow} {rows left : List JobRow} {n : ℕ}
      → (r.status ≢ done) ⊎ (now ≤ r.updated_at + age)
      → Purges age now rows left n
      → Purges age now (r ∷ rows) (r ∷ left) n

is_done-cases :
    (s : Status) → ((s ≡ done) × (is_done s ≡ true)) ⊎ ((s ≢ done) × (is_done s ≡ false))
is_done-cases s = ground arith

kept-Purges :
    (age now : ℕ) (rows : List JobRow)
    → Purges age now rows (kept age now rows) (length (purged age now rows))
unfolding purgeable select_rows
kept-Purges age now [] = no_rows
kept-Purges age now (r ∷ rows) = elim (is_done-cases r.status) [
  | inr (m, h) ↦ rw h (stays (inl m) (kept-Purges age now rows))
  | inl (e, h) ↦ elim (Bool-cases (ltb (r.updated_at + age) now)) [
    | inl k ↦ rw (h, k) (goes e (ground (arith, k)) (kept-Purges age now rows))
    | inr k ↦ rw (h, k) (stays (inr (ground (arith, k))) (kept-Purges age now rows))
  ]
]

-- Older rows stay purgeable.
purged-later :
    (age now later : ℕ) (rows : List JobRow)
    → now ≤ later
    → All (λ r. purgeable age later r ≡ true) (purged age now rows)
unfolding purgeable select_rows
purged-later age now later [] l = tt
purged-later age now later (r ∷ rows) l = elim (Bool-cases (purgeable age now r)) [
  | inl h ↦ rw (purgeable, h) (ground (arith, h, l), purged-later age now later rows l)
  | inr h ↦ rw h (purged-later age now later rows l)
]

-- Where the text is no interval, the database stays.
pub purge_done_refused :
    (env : Env) (text : String) (verbose : Bool) (s : Session)
    → env.interval_length text ≡ none
    → (purge_done env text verbose s).1.db ≡ s.db
unfolding purge_done purge_verbosely failing_with
purge_done_refused env text true s i = rw (with_interval, i) refl
purge_done_refused env text false s i = rw (with_interval, i) refl

module _ (env : Env) (text : String) (s : Session) (age : ℕ) where
  pub purge_done_quiet :
      env.interval_length text ≡ some age
      → env.fault s.sent ≡ none
      → ((purge_done env text false s).0 ≡ ok (length (purged age (env.now s.sent) s.db.jobs)))
        × ((purge_done env text false s).1.db ≡ purge_rows age (env.now s.sent) s.db)
  unfolding purge_done purge_verbosely statement failing_with
  purge_done_quiet i f = rw (with_interval, i, f) (refl, refl)

  -- Where the server reads the text as an interval and executes the statement, `purge_done`, when it
  -- is not to log, leaves exactly the rows that are not done or not older than that, in their order,
  -- and returns the number of rows that have gone.
  pub purge_done-kept :
      env.interval_length text ≡ some age
      → env.fault s.sent ≡ none
      → let run = purge_done env text false s in
        (n : ℕ) × (run.0 ≡ ok n) × Purges age (env.now s.sent) s.db.jobs run.1.db.jobs n
  purge_done-kept i f =
      let (e, d) = purge_done_quiet i f in
      let now = env.now s.sent in
      (
        length (purged age now s.db.jobs),
        e,
        subst (λ rows. Purges age now s.db.jobs rows (length (purged age now s.db.jobs)))
            (sym (ap (λ (b : Database). b.jobs) d ∙ (kept-purged age now s.db).0))
            (kept-Purges age now s.db.jobs),
      )

  pub purge_done_verbose :
      env.interval_length text ≡ some age
      → env.fault s.sent ≡ none
      → env.fault (suc s.sent) ≡ none
      → let run = purge_done env text true s in
        (run.0 ≡ ok (length (purged age (env.now (suc s.sent)) s.db.jobs)))
        × (run.1.db ≡ purge_rows age (env.now (suc s.sent)) s.db)
        × (run.1.purge_log ≡ s.purge_log ++ map log_entry (purged age (env.now s.sent) s.db.jobs))
  unfolding purge_done purge_verbosely statement failing_with
  purge_done_verbose i f g =
      rw
        (
          with_interval,
          i,
          f,
          log_candidates-map env (purged age (env.now s.sent) s.db.jobs)
              (record s { sent = suc s.sent }),
          g,
        )
        (refl, refl, refl)

  -- Where the server reads the text as an interval, executes both statements, and its clock does not
  -- go back between them, `purge_done`, when it is to log, leaves exactly the rows that are not done
  -- or not older than that at the second statement. It logs, in order, the rows that were older at
  -- the first statement, and each of those is deleted.
  pub purge_done_logs :
      env.interval_length text ≡ some age
      → env.fault s.sent ≡ none
      → env.fault (suc s.sent) ≡ none
      → env.now s.sent ≤ env.now (suc s.sent)
      → let run = purge_done env text true s in
        (run.1.db.jobs ≡ kept age (env.now (suc s.sent)) s.db.jobs)
        × (run.1.purge_log ≡ s.purge_log ++ map log_entry (purged age (env.now s.sent) s.db.jobs))
        × All
            (λ r. purgeable age (env.now (suc s.sent)) r ≡ true)
            (purged age (env.now s.sent) s.db.jobs)
  purge_done_logs i f g l =
      let (e, d, q) = purge_done_verbose i f g in
      (
        ap (λ (b : Database). b.jobs) d ∙ (kept-purged age (env.now (suc s.sent)) s.db).0,
        q,
        purged-later age (env.now s.sent) (env.now (suc s.sent)) s.db.jobs l,
      )
