-- ===== src/Worker/Backlog.antt =====
-- The jobs that wait, as the statements of a worker leave them.
use pgquarry.Base.{
  ℕ, zero, suc, ◌<◌, ◌≡◌, ◌⊎◌, inl, inr, refl, sym, ◌∙◌, ap, subst, Bool, true, false, not, ◌&&◌,
  Option, none, some, List, [], ◌∷◌, arith, if◌then◌else◌, All, Bool-cases,
}
use pgquarry.Database.{Status, done, error, JobRow, is_pending, select_rows}
use pgquarry.Database.Rows.{row}
use pgquarry.Store.Claim.{ids, available, IsAscending}

-- No other session holds a row.
abbrev pub nobody : ℕ → Bool
nobody i = false

-- The ids of the jobs that wait, the oldest first.
abbrev pub waiting : List JobRow → List ℕ
waiting rows = available nobody rows

pub waiting_cons :
    (r : JobRow) (rows : List JobRow)
    → is_pending r.status && not (nobody r.id) ≡ true
    → waiting (r ∷ rows) ≡ r.id ∷ waiting rows
unfolding select_rows
waiting_cons r rows h = rw h refl

pub waiting_past :
    (r : JobRow) (rows : List JobRow)
    → is_pending r.status && not (nobody r.id) ≡ false
    → waiting (r ∷ rows) ≡ waiting rows
unfolding select_rows
waiting_past r rows h = rw h refl

pub waiting-first :
    (r : JobRow) (rows rows' : List JobRow)
    → waiting rows ≡ waiting rows'
    → waiting (r ∷ rows) ≡ waiting (r ∷ rows')
waiting-first r rows rows' e = elim (Bool-cases (is_pending r.status && not (nobody r.id))) [
  | inl h ↦ waiting_cons r rows h ∙ ap (λ is. r.id ∷ is) e ∙ sym (waiting_cons r rows' h)
  | inr h ↦ waiting_past r rows h ∙ e ∙ sym (waiting_past r rows' h)
]

abbrev pub drop : ℕ → List ℕ → List ℕ
drop zero xs = xs
drop (suc n) [] = []
drop (suc n) (x ∷ xs) = drop n xs

-- Done or in error.
abbrev pub is_final : Status → Bool
is_final done = true
is_final error = true
is_final _ = false

-- The job has ended, or has ended and been purged.
abbrev pub IsFinal : ℕ → List JobRow → Type 0
IsFinal i rows =
    (row i rows ≡ none) ⊎ ((r : JobRow) × (row i rows ≡ some r) × (is_final r.status ≡ true))

abbrev pub is_waiting : Option JobRow → Bool
is_waiting none = false
is_waiting (some r) = is_pending r.status

keep_where : (ℕ → Bool) → List ℕ → List ℕ
keep_where p [] = []
keep_where p (x ∷ xs) = if p x then x ∷ keep_where p xs else keep_where p xs

keep_where-same :
    (p q : ℕ → Bool) (xs : List ℕ) → All (λ x. p x ≡ q x) xs → keep_where p xs ≡ keep_where q xs
unfolding keep_where
keep_where-same p q [] a = refl
keep_where-same p q (x ∷ xs) (e, a) = rw (e, keep_where-same p q xs a) refl

All-every : (P : ℕ → Type 0) → ((i : ℕ) → P i) → (xs : List ℕ) → All P xs
All-every P f [] = tt
All-every P f (x ∷ xs) = (f x, All-every P f xs)

pub All-imp : (P Q : ℕ → Type 0) → ((i : ℕ) → P i → Q i) → (xs : List ℕ) → All P xs → All Q xs
All-imp P Q f [] a = tt
All-imp P Q f (x ∷ xs) (p, a) = (f x p, All-imp P Q f xs a)

pub row_past : (i : ℕ) (r : JobRow) (rows : List JobRow) → r.id < i → row i (r ∷ rows) ≡ row i rows
unfolding row
row_past i r rows h = ground (arith, h)

pub row_first : (r : JobRow) (rows : List JobRow) → row r.id (r ∷ rows) ≡ some r
unfolding row
row_first r rows = ground arith

pub row-above : (i : ℕ) (rows : List JobRow) → All (λ x. i < x) (ids rows) → row i rows ≡ none
unfolding row
row-above i [] a = refl
row-above i (r ∷ rows) (l, a) = ground (arith, l, row-above i rows a)

-- Where the ids rise, what waits is what is found waiting by its id.
waiting-is_waiting :
    (rows : List JobRow)
    → IsAscending (ids rows)
    → waiting rows ≡ keep_where (λ i. is_waiting (row i rows)) (ids rows)
unfolding select_rows keep_where
waiting-is_waiting [] a = refl
waiting-is_waiting (r ∷ rows) (l, a) =
    let rest : waiting rows ≡ keep_where (λ i. is_waiting (row i (r ∷ rows))) (ids rows) =
      waiting-is_waiting rows a
      ∙ keep_where-same (λ i. is_waiting (row i rows)) (λ i. is_waiting (row i (r ∷ rows)))
          (ids rows)
          (All-imp (λ i. r.id < i) (λ i. is_waiting (row i rows) ≡ is_waiting (row i (r ∷ rows)))
            (λ i h. ap is_waiting (sym (row_past i r rows h))) (ids rows) l) in
    rw (row_first r rows) (ground (arith, rest))

-- The same ids, each of them waiting as before: the same jobs wait.
pub waiting-same :
    (rows rows' : List JobRow)
    → ids rows' ≡ ids rows
    → IsAscending (ids rows)
    → ((i : ℕ) → is_waiting (row i rows') ≡ is_waiting (row i rows))
    → waiting rows' ≡ waiting rows
waiting-same rows rows' e a h =
    waiting-is_waiting rows' (subst IsAscending (sym e) a)
    ∙ ap (keep_where (λ i. is_waiting (row i rows'))) e
    ∙ keep_where-same (λ i. is_waiting (row i rows')) (λ i. is_waiting (row i rows)) (ids rows)
        (All-every _ h (ids rows))
    ∙ sym (waiting-is_waiting rows a)
