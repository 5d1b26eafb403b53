-- ===== src/Worker/Arrivals.antt =====
-- Rows that clients add between two rounds of the main loop.
use pgquarry.Base.{
  ℕ, ◌≤◌, ◌<◌, ◌≡◌, inl, inr, refl, sym, ◌∙◌, ap, subst, ◌&&◌, not, none, List, [], ◌∷◌, ◌++◌, All,
  All-append, arith, Bool-cases,
}
use pgquarry.Database.{JobRow, is_pending, select_rows}
use pgquarry.Database.Rows.{row}
use pgquarry.Store.Claim.{ids, IsAscending, IsKnown}
use pgquarry.Watch.{WatchCache}
use pgquarry.Dispatch.Settled.{InSync-of_session}
use pgquarry.Worker.{Round, with_arrivals}
use pgquarry.Worker.Backlog.{
  nobody, waiting, IsFinal, All-imp, row-above, waiting_cons, waiting_past,
}
use pgquarry.Worker.Steady.{IsSteady}

-- Rows that clients add: their ids rise from a bound to another, and their kinds are known.
pub record AreNew (low high : ℕ) (rows : List JobRow) : Type 0 where
  pub above : All (λ i. low ≤ i) (ids rows)
  pub below : All (λ i. i < high) (ids rows)
  pub rises : low ≤ high
  pub ascending : IsAscending (ids rows)
  pub known : All IsKnown rows

-- The rows that arrive before each round have new ids.
abbrev pub Arrive : ℕ → List Round → Type 0
Arrive low [] = Unit {0}
Arrive low (r ∷ rounds) = (high : ℕ) × AreNew low high r.arrivals × Arrive high rounds

ids-append : (rows rows' : List JobRow) → ids (rows ++ rows') ≡ ids rows ++ ids rows'
ids-append [] rows' = refl
ids-append (r ∷ rows) rows' = ap (λ is. r.id ∷ is) (ids-append rows rows')

pub waiting-append :
    (rows rows' : List JobRow) → waiting (rows ++ rows') ≡ waiting rows ++ waiting rows'
waiting-append [] rows' = unfold select_rows in refl
waiting-append (r ∷ rows) rows' = elim (Bool-cases (is_pending r.status && not (nobody r.id))) [
  | inl h ↦
      waiting_cons r (rows ++ rows') h
      ∙ ap (λ is. r.id ∷ is) (waiting-append rows rows')
      ∙ sym (ap (λ is. is ++ waiting rows') (waiting_cons r rows h))
  | inr h ↦
      waiting_past r (rows ++ rows') h
      ∙ waiting-append rows rows'
      ∙ sym (ap (λ is. is ++ waiting rows') (waiting_past r rows h))
]

row-append :
    (i : ℕ) (rows rows' : List JobRow) → row i rows' ≡ none → row i (rows ++ rows') ≡ row i rows
unfolding row
row-append i [] rows' h = h
row-append i (r ∷ rows) rows' h = ground (arith, row-append i rows rows' h)

IsAscending-append :
    (low : ℕ) (xs ys : List ℕ)
    → All (λ i. i < low) xs
    → All (λ i. low ≤ i) ys
    → IsAscending xs
    → IsAscending ys
    → IsAscending (xs ++ ys)
IsAscending-append low [] ys a b c d = d
IsAscending-append low (x ∷ xs) ys (l, a) b (m, c) d = (
  All-append (λ y. x < y) xs ys m
      (All-imp (λ i. low ≤ i) (λ y. x < y) (λ i h. omega (arith, l, h)) ys b),
  IsAscending-append low xs ys a b c d,
)

-- The state after the arrivals.
module _ (low high : ℕ) (rows : List JobRow) (w : WatchCache) (new : AreNew low high rows)
    (s : IsSteady w) (b : All (λ i. i < low) (ids w.session.db.jobs)) where
  pub arrivals-IsSteady : IsSteady (with_arrivals rows w)
  arrivals-IsSteady = record {
    ascending = subst IsAscending (sym (ids-append w.session.db.jobs rows)) (
        IsAscending-append low (ids w.session.db.jobs) (ids rows) b new.above s.ascending
          new.ascending);
    known = All-append IsKnown w.session.db.jobs rows s.known new.known;
    kinds = s.kinds;
    in_sync = InSync-of_session w (with_arrivals rows w).session refl s.in_sync;
  }

  pub arrivals_bounded : All (λ i. i < high) (ids (with_arrivals rows w).session.db.jobs)
  arrivals_bounded =
      let up = All-imp (λ i. i < low) (λ i. i < high) (λ i h. omega (arith, h, new.rises)) _ b in
      subst (All (λ i. i < high)) (sym (ids-append w.session.db.jobs rows))
        (All-append (λ i. i < high) (ids w.session.db.jobs) (ids rows) up new.below)

  pub arrivals-IsFinal :
      (i : ℕ)
      → i < low
      → IsFinal i w.session.db.jobs
      → IsFinal i (with_arrivals rows w).session.db.jobs
  arrivals-IsFinal i l f =
      let above =
        All-imp (λ j. low ≤ j) (λ j. i < j) (λ j h. omega (arith, l, h)) (ids rows) new.above in
      let e = row-append i w.session.db.jobs rows (row-above i rows above) in
      elim f [ inl h ↦ inl (e ∙ h) | inr (r, h, k) ↦ inr (r, e ∙ h, k) ]
