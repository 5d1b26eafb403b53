-- ===== src/Database/Rows.antt =====
-- Reading a row back after a statement, and the statements recorded for the user tables.
use mathlib.Core.Option
use pgquarry.Base.{
  ℕ, ◌≡◌, ◌≢◌, ◌⊎◌, inl, inr, refl, Bool, Option, none, some, List, [], ◌∷◌, ◌++◌, arith, ◌==◌,
  String, map, ap, Bool-cases, if◌then◌else◌,
}
use pgquarry.Database.{JobRow, Write, update_rows, has_id}

-- The row with a given id.
unfoldable pub row : ℕ → List JobRow → Option JobRow
row i [] = none
row i (r ∷ rows) = if r.id == i then some r else row i rows

-- What no UPDATE of a worker changes: the id and the kind of job.
abbrev pub head : JobRow → ℕ × String
head r = (r.id, r.job_type)

abbrev pub heads : List JobRow → List (ℕ × String)
heads rows = map head rows

pub heads-update_rows :
    (here : JobRow → Bool) (set : JobRow → JobRow)
    → ((r : JobRow) → head (set r) ≡ head r)
    → (rows : List JobRow) → heads (update_rows here set rows) ≡ heads rows
unfolding update_rows
heads-update_rows here set k [] = refl
heads-update_rows here set k (r ∷ rows) = elim (Bool-cases (here r)) [
  | inl h ↦ rw (h, k r) (ap (λ hs. head r ∷ hs) (heads-update_rows here set k rows))
  | inr h ↦ rw h (ap (λ hs. head r ∷ hs) (heads-update_rows here set k rows))
]

module _ (here : JobRow → Bool) (set : JobRow → JobRow)
    (keeps_id : (r : JobRow) → (set r).id ≡ r.id) where
  -- After an UPDATE a row is what it was, or what the SET clause makes of it.
  pub row-update_rows :
      (i : ℕ) (rows : List JobRow)
      → row i (update_rows here set rows)
        ≡ Option.map (λ r. if here r then set r else r) (row i rows)
  unfolding row update_rows
  row-update_rows i [] = refl
  row-update_rows i (r ∷ rows) = ground (arith, row-update_rows i rows, keeps_id r)

module _ (j : ℕ) (set : JobRow → JobRow) (keeps_id : (r : JobRow) → (set r).id ≡ r.id) where
  -- An UPDATE of one id changes the row of that id alone.
  pub row-update_ne :
      (i : ℕ) (rows : List JobRow) → i ≢ j → row i (update_rows (has_id j) set rows) ≡ row i rows
  unfolding row update_rows
  row-update_ne i [] h = refl
  row-update_ne i (r ∷ rows) h = ground (arith, row-update_ne i rows h, keeps_id r)

  pub row-update_self :
      (rows : List JobRow) → row j (update_rows (has_id j) set rows) ≡ Option.map set (row j rows)
  unfolding row update_rows
  row-update_self [] = refl
  row-update_self (r ∷ rows) = ground (arith, row-update_self rows, keeps_id r)

-- A statement on a user table was executed.
abbrev pub Wrote : Write → List Write → Type 0
Wrote x [] = ⊥
Wrote x (y ∷ ys) = (x ≡ y) ⊎ Wrote x ys

pub Wrote-append : (x : Write) (xs ys : List Write) → Wrote x xs → Wrote x (xs ++ ys)
Wrote-append x [] ys h = absurd h
Wrote-append x (y ∷ xs) ys (inl e) = inl e
Wrote-append x (y ∷ xs) ys (inr h) = inr (Wrote-append x xs ys h)

pub Wrote-last : (x : Write) (xs : List Write) → Wrote x (xs ++ x ∷ [])
Wrote-last x [] = inl refl
Wrote-last x (y ∷ xs) = inr (Wrote-last x xs)
