-- ===== src/Worker/Steady.antt =====
-- What a round of the main loop keeps between the rounds, and a purge at its end.
use pgquarry.Base.{
  ℕ, ◌<◌, String, ◌≡◌, ◌⊎◌, inl, inr, refl, sym, ◌∙◌, ap, Bool, List, [], ◌∷◌, map, All, Bool-cases,
}
use pgquarry.Database.{JobRow, Database, delete_rows, purgeable, purge_rows}
use pgquarry.Database.Rows.{heads}
use pgquarry.Store.Claim.{ids, first, IsAscending, IsKnown}
use pgquarry.Store.Connection.{Session}
use pgquarry.Watch.{WatchCache}
use pgquarry.Watch.Refines.{HasKinds, InSync}
use pgquarry.Dispatch.Settled.{InSync-of_session}
use pgquarry.Worker.Backlog.{waiting, drop, IsFinal, All-imp}
use pgquarry.Worker.Purged.{
  All-delete_ids, delete_rows-IsAscending, IsFinal-delete_rows, waiting-delete_rows,
}

-- The state between two rounds: rising ids, known kinds, and a cache in step with the table.
pub record IsSteady (w : WatchCache) : Type 0 where
  pub ascending : IsAscending (ids w.session.db.jobs)
  pub known : All IsKnown w.session.db.jobs
  pub kinds : HasKinds w.session.db.watched
  pub in_sync : InSync w

-- From `w` to `w'` the oldest `limit` of the waiting jobs end, and no other job begins or stops to wait
-- or to have ended.
pub record Advances (limit : ℕ) (w w' : WatchCache) : Type 0 where
  pub ended : All (λ i. IsFinal i w'.session.db.jobs) (first limit (waiting w.session.db.jobs))
  pub left : waiting w'.session.db.jobs ≡ drop limit (waiting w.session.db.jobs)
  pub final : (i : ℕ) → IsFinal i w.session.db.jobs → IsFinal i w'.session.db.jobs
  pub steady : IsSteady w'
  pub bounded :
      (n : ℕ) → All (λ i. i < n) (ids w.session.db.jobs) → All (λ i. i < n) (ids w'.session.db.jobs)

-- What the rows say by their heads.
ids-heads : (rows : List JobRow) → map (λ (p : ℕ × String). p.0) (heads rows) ≡ ids rows
ids-heads [] = refl
ids-heads (r ∷ rows) = ap (λ is. r.id ∷ is) (ids-heads rows)

pub heads-ids : (rows rows' : List JobRow) → heads rows' ≡ heads rows → ids rows' ≡ ids rows
heads-ids rows rows' e =
    sym (ids-heads rows') ∙ ap (map (λ (p : ℕ × String). p.0)) e ∙ ids-heads rows

abbrev pub KnownHead : ℕ × String → Type 0
KnownHead p = (p.1 ≡ "embed") ⊎ (p.1 ≡ "generate")

pub known-heads : (rows : List JobRow) → All IsKnown rows → All KnownHead (heads rows)
known-heads [] a = tt
known-heads (r ∷ rows) (k, a) = (k, known-heads rows a)

pub heads-IsKnown : (rows : List JobRow) → All KnownHead (heads rows) → All IsKnown rows
heads-IsKnown [] a = tt
heads-IsKnown (r ∷ rows) (k, a) = (k, heads-IsKnown rows a)

-- The rows of a purge.
All-delete_rows :
    (P : JobRow → Type 0) (here : JobRow → Bool) (rows : List JobRow)
    → All P rows
    → All P (delete_rows here rows)
unfolding delete_rows
All-delete_rows P here [] a = tt
All-delete_rows P here (r ∷ rows) (p, a) = elim (Bool-cases (here r)) [
  | inl h ↦ rw h (All-delete_rows P here rows a)
  | inr h ↦ rw h (p, All-delete_rows P here rows a)
]

-- A purge after an advance.
pub purge_rows-Advances :
    (limit age now : ℕ) (w w' : WatchCache) (s : Session)
    → s.db ≡ purge_rows age now w'.session.db
    → Advances limit w w'
    → Advances limit w (record w' { session = s })
unfolding purge_rows
purge_rows-Advances limit age now w w' s e a =
    let jobs = w'.session.db.jobs in
    let here = purgeable age now in
    let j : s.db.jobs ≡ delete_rows here jobs = ap (λ (d : Database). d.jobs) e in
    let k : s.db.watched ≡ w'.session.db.watched = ap (λ (d : Database). d.watched) e in
    let f : (i : ℕ) → IsFinal i jobs → IsFinal i s.db.jobs =
      λ i h. rw j (IsFinal-delete_rows here i jobs a.steady.ascending h) in
    record {
      ended =
          All-imp (λ i. IsFinal i jobs) (λ i. IsFinal i s.db.jobs) f
            (first limit (waiting w.session.db.jobs)) a.ended;
      left = ap waiting j ∙ waiting-delete_rows age now jobs ∙ a.left;
      final = λ i h. f i (a.final i h);
      steady = record {
        ascending = rw j (delete_rows-IsAscending here jobs a.steady.ascending);
        known = rw j (All-delete_rows IsKnown here jobs a.steady.known);
        kinds = rw k a.steady.kinds;
        in_sync = InSync-of_session w' s k a.steady.in_sync;
      };
      bounded = λ b h. rw j (All-delete_ids (λ i. i < b) here jobs (a.bounded b h));
    }

pub same_db-Advances :
    (limit : ℕ) (w w' : WatchCache) (s : Session)
    → s.db ≡ w'.session.db
    → Advances limit w w'
    → Advances limit w (record w' { session = s })
same_db-Advances limit w w' s e a =
    let k : s.db.watched ≡ w'.session.db.watched = ap (λ (d : Database). d.watched) e in
    record {
      ended = rw e a.ended;
      left = rw e a.left;
      final = λ i h. rw e (a.final i h);
      steady = record {
        ascending = rw e a.steady.ascending;
        known = rw e a.steady.known;
        kinds = rw e a.steady.kinds;
        in_sync = InSync-of_session w' s k a.steady.in_sync;
      };
      bounded = λ b h. rw e (a.bounded b h);
    }
