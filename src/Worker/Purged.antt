-- ===== src/Worker/Purged.antt =====
-- What a purge does to the jobs: none that waits goes, and the others stay in their order.
use pgquarry.Base.{
  ℕ, suc, ◌<◌, String, ◌≡◌, ◌⊎◌, inl, inr, refl, sym, ◌∙◌, subst, Bool, true, false, not, ◌&&◌,
  none, List, [], ◌∷◌, arith, All, Bool-cases, Option-cases,
}
use pgquarry.Database.{
  JobRow, Status, pending, processing, done, error, is_pending, is_done, delete_rows, purgeable,
  purge_rows,
}
use pgquarry.Database.Rows.{row}
use pgquarry.Store.{purge_done}
use pgquarry.Store.Connection.{Env, Session}
use pgquarry.Store.Claim.{ids, IsAscending}
use pgquarry.Store.Purge.{purge_done_refused, purge_done_quiet, purge_done_verbose}
use pgquarry.Worker.Backlog.{nobody, waiting, IsFinal, row-above, waiting_past, waiting-first}

pub All-delete_ids :
    (P : ℕ → Type 0) (here : JobRow → Bool) (rows : List JobRow)
    → All P (ids rows)
    → All P (ids (delete_rows here rows))
unfolding delete_rows
All-delete_ids P here [] a = tt
All-delete_ids P here (r ∷ rows) (p, a) = elim (Bool-cases (here r)) [
  | inl h ↦ rw h (All-delete_ids P here rows a)
  | inr h ↦ rw h (p, All-delete_ids P here rows a)
]

pub delete_rows-IsAscending :
    (here : JobRow → Bool) (rows : List JobRow)
    → IsAscending (ids rows)
    → IsAscending (ids (delete_rows here rows))
unfolding delete_rows
delete_rows-IsAscending here [] a = tt
delete_rows-IsAscending here (r ∷ rows) (l, a) = elim (Bool-cases (here r)) [
  | inl h ↦ rw h (delete_rows-IsAscending here rows a)
  | inr h ↦ rw h (All-delete_ids (λ y. r.id < y) here rows l, delete_rows-IsAscending here rows a)
]

-- A row is deleted or stays.
row-delete_rows :
    (here : JobRow → Bool) (i : ℕ) (rows : List JobRow)
    → IsAscending (ids rows)
    → (row i (delete_rows here rows) ≡ none) ⊎ (row i (delete_rows here rows) ≡ row i rows)
unfolding delete_rows row
row-delete_rows here i [] a = inl refl
row-delete_rows here i (r ∷ rows) (l, a) =
    let above : r.id ≡ i → row i (delete_rows here rows) ≡ none = λ e.
      row-above i (delete_rows here rows) (
        subst (λ x. All (λ y. x < y) (ids (delete_rows here rows))) e
          (All-delete_ids (λ y. r.id < y) here rows l)) in
    elim (row-delete_rows here i rows a) [
      | inl h ↦ ground (arith, h, above)
      | inr h ↦ ground (arith, h, above)
    ]

pub IsFinal-delete_rows :
    (here : JobRow → Bool) (i : ℕ) (rows : List JobRow)
    → IsAscending (ids rows)
    → IsFinal i rows
    → IsFinal i (delete_rows here rows)
IsFinal-delete_rows here i rows a f = elim (row-delete_rows here i rows a) [
  | inl h ↦ inl h
  | inr h ↦ elim f [ inl e ↦ inl (h ∙ e) | inr (r, e, s) ↦ inr (r, h ∙ e, s) ]
]

purgeable_waits :
    (age now : ℕ) (r : JobRow)
    → purgeable age now r ≡ true
    → is_pending r.status && not (nobody r.id) ≡ false
unfolding purgeable
purgeable_waits age now r h = of_status r.status (ground (arith, h))
  where
    of_status : (x : Status) → is_done x ≡ true → is_pending x && true ≡ false
    of_status pending e = cc
    of_status processing e = refl
    of_status done e = refl
    of_status error e = refl

pub waiting-delete_rows :
    (age now : ℕ) (rows : List JobRow)
    → waiting (delete_rows (purgeable age now) rows) ≡ waiting rows
unfolding delete_rows
waiting-delete_rows age now [] = refl
waiting-delete_rows age now (r ∷ rows) = elim (Bool-cases (purgeable age now r)) [
  | inl h ↦
      rw h
        (waiting-delete_rows age now rows ∙ sym (waiting_past r rows (purgeable_waits age now r h)))
  | inr h ↦ rw h (
      waiting-first r (delete_rows (purgeable age now) rows) rows
        (waiting-delete_rows age now rows))
]

-- Whatever is logged, and whether the text is an interval or not, the rows are those of a purge or
-- stay.
pub purge_done-db :
    (env : Env) (text : String) (verbose : Bool) (s : Session)
    → ((n : ℕ) → env.fault n ≡ none)
    → let run = purge_done env text verbose s in
      (run.1.db ≡ s.db) ⊎ ((age : ℕ) × (now : ℕ) × (run.1.db ≡ purge_rows age now s.db))
purge_done-db env text verbose s n = elim (Option-cases (env.interval_length text)) [
  | inl i ↦ inl (purge_done_refused env text verbose s i)
  | inr (age, i) ↦ elim (Bool-cases verbose) [
    | inl v ↦ inr (
      age,
      env.now (suc s.sent),
      rw v ((purge_done_verbose env text s age i (n s.sent) (n (suc s.sent))).1),
    )
    | inr v ↦ inr (age, env.now s.sent, rw v ((purge_done_quiet env text s age i (n s.sent)).1))
  ]
]
