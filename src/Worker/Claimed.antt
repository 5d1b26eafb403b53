-- ===== src/Worker/Claimed.antt =====
-- What a claim does to the jobs that wait: with no other session, it takes the oldest of them.
use pgquarry.Base.{
  ℕ, zero, suc, ◌<◌, ◌≡◌, inl, inr, refl, sym, ◌∙◌, ap, subst, Bool, true, false, not, ◌&&◌, some,
  List, [], ◌∷◌, arith, ◌==◌, All, Bool-cases,
}
use pgquarry.Database.{JobRow, is_pending, update_rows, select_rows, contains, select_pending}
use pgquarry.Database.Rows.{row}
use pgquarry.Store.Claim.{
  ids, first, IsAscending, processing_since, select_pending-above, select_pending_takes,
  select_pending_skips,
}
use pgquarry.Worker.Backlog.{
  nobody, waiting, drop, All-imp, row_past, row_first, waiting_cons, waiting_past,
}

-- The rows after a claim at a time.
abbrev pub claim_rows : ℕ → ℕ → List JobRow → List JobRow
claim_rows limit now rows =
    update_rows (λ r. contains (select_pending nobody limit rows) r.id) (processing_since now) rows

update_rows-nil :
    (set : JobRow → JobRow) (rows : List JobRow)
    → update_rows (λ r. contains [] r.id) set rows ≡ rows
unfolding update_rows
update_rows-nil set [] = refl
update_rows-nil set (r ∷ rows) = ap (λ rs. r ∷ rs) (update_rows-nil set rows)

update_rows-above :
    (x : ℕ) (taken : List ℕ) (set : JobRow → JobRow) (rows : List JobRow)
    → All (λ y. x < y) (ids rows)
    → update_rows (λ r. contains (x ∷ taken) r.id) set rows
      ≡ update_rows (λ r. contains taken r.id) set rows
unfolding update_rows
update_rows-above x taken set [] a = refl
update_rows-above x taken set (r ∷ rows) (l, a) =
    ground (arith, l, update_rows-above x taken set rows a)

pending-both : (b : Bool) → b && not false ≡ b
pending-both true = refl
pending-both false = refl

claimed_rows : List ℕ → ℕ → List JobRow → List JobRow
claimed_rows taken now rows = update_rows (λ r. contains taken r.id) (processing_since now) rows

waiting-takes :
    (taken : List ℕ) (now : ℕ) (r : JobRow) (rows : List JobRow)
    → All (λ y. r.id < y) (ids rows)
    → waiting (claimed_rows (r.id ∷ taken) now (r ∷ rows)) ≡ waiting (claimed_rows taken now rows)
unfolding claimed_rows update_rows select_rows
waiting-takes taken now r rows l =
    let q : (r.id == r.id) ≡ true = ground arith in
    rw (q, update_rows-above r.id taken (processing_since now) rows l) refl

waiting-skips :
    (taken : List ℕ) (now : ℕ) (r : JobRow) (rows : List JobRow)
    → is_pending r.status && not (nobody r.id) ≡ false
    → contains taken r.id ≡ false
    → waiting (claimed_rows taken now (r ∷ rows)) ≡ waiting (claimed_rows taken now rows)
unfolding claimed_rows update_rows select_rows
waiting-skips taken now r rows h c = rw (c, h) refl

waiting-claimed_rows :
    (limit now : ℕ) (rows : List JobRow)
    → IsAscending (ids rows)
    → waiting (claimed_rows (select_pending nobody limit rows) now rows) ≡ drop limit (waiting rows)
unfolding claimed_rows select_pending
waiting-claimed_rows zero now [] a = unfold update_rows select_rows in refl
waiting-claimed_rows (suc n) now [] a = unfold update_rows select_rows in refl
waiting-claimed_rows zero now (r ∷ rows) a =
    ap waiting (update_rows-nil (processing_since now) (r ∷ rows))
waiting-claimed_rows (suc n) now (r ∷ rows) (l, a) =
    elim (Bool-cases (is_pending r.status && not (nobody r.id))) [
      | inl h ↦
          subst
            (λ taken.
              waiting (claimed_rows taken now (r ∷ rows)) ≡ drop (suc n) (waiting (r ∷ rows)))
            (sym (select_pending_takes nobody n r rows h))
            (waiting-takes (select_pending nobody n rows) now r rows l
              ∙ waiting-claimed_rows n now rows a
              ∙ sym (ap (drop (suc n)) (waiting_cons r rows h)))
      | inr h ↦
          subst
            (λ taken.
              waiting (claimed_rows taken now (r ∷ rows)) ≡ drop (suc n) (waiting (r ∷ rows)))
            (sym (select_pending_skips nobody n r rows h))
            (waiting-skips (select_pending nobody (suc n) rows) now r rows h
                (select_pending-above nobody (suc n) r.id rows l)
              ∙ waiting-claimed_rows (suc n) now rows a
              ∙ sym (ap (drop (suc n)) (waiting_past r rows h)))
    ]

-- What waits after a claim is what waited, less the first.
pub waiting-claim_rows :
    (limit now : ℕ) (rows : List JobRow)
    → IsAscending (ids rows)
    → waiting (claim_rows limit now rows) ≡ drop limit (waiting rows)
unfolding claimed_rows
waiting-claim_rows limit now rows a = waiting-claimed_rows limit now rows a

pub row-id : (i : ℕ) (rows : List JobRow) (r : JobRow) → row i rows ≡ some r → r.id ≡ i
unfolding row
row-id i [] r h = cc
row-id i (q ∷ rows) r h = ground (arith, h, row-id i rows r)

pub All-first : (P : ℕ → Type 0) (n : ℕ) (xs : List ℕ) → All P xs → All P (first n xs)
All-first P zero xs a = tt
All-first P (suc n) [] a = tt
All-first P (suc n) (x ∷ xs) (p, a) = (p, All-first P n xs a)

pub All-contains : (xs : List ℕ) → All (λ i. contains xs i ≡ true) xs
All-contains [] = tt
All-contains (x ∷ xs) = (
  ground arith,
  All-imp (λ i. contains xs i ≡ true) (λ i. contains (x ∷ xs) i ≡ true) (λ i h. ground (arith, h))
      xs (All-contains xs),
)

pub contained : (P : ℕ → Type 0) (xs : List ℕ) (i : ℕ) → All P xs → contains xs i ≡ true → P i
contained P [] i a h = absurd (ground (arith, h))
contained P (x ∷ xs) i (p, a) h = elim (Bool-cases (x == i)) [
  | inl e ↦ let q : x ≡ i = ground (arith, e) in subst P q p
  | inr e ↦ contained P xs i a (rw e at h)
]

-- An id that waits, by its row.
abbrev pub Waits : List JobRow → ℕ → Type 0
Waits rows i = (r : JobRow) × (row i rows ≡ some r) × (is_pending r.status ≡ true)

Waits-cons :
    (q : JobRow) (rows : List JobRow) (i : ℕ) → (q.id < i) × Waits rows i → Waits (q ∷ rows) i
Waits-cons q rows i (l, (r, e, h)) = (r, row_past i q rows l ∙ e, h)

pub All-both : (P Q : ℕ → Type 0) (xs : List ℕ) → All P xs → All Q xs → All (λ i. P i × Q i) xs
All-both P Q [] p q = tt
All-both P Q (x ∷ xs) (p, ps) (q, qs) = ((p, q), All-both P Q xs ps qs)

pub All-waiting : (P : ℕ → Type 0) (rows : List JobRow) → All P (ids rows) → All P (waiting rows)
All-waiting P [] a = unfold select_rows in tt
All-waiting P (r ∷ rows) (p, a) = elim (Bool-cases (is_pending r.status && not (nobody r.id))) [
  | inl h ↦ subst (All P) (sym (waiting_cons r rows h)) (p, All-waiting P rows a)
  | inr h ↦ subst (All P) (sym (waiting_past r rows h)) (All-waiting P rows a)
]

pub waiting-Waits : (rows : List JobRow) → IsAscending (ids rows) → All (Waits rows) (waiting rows)
waiting-Waits [] a = unfold select_rows in tt
waiting-Waits (r ∷ rows) (l, a) =
    let rest =
      All-imp (λ i. (r.id < i) × Waits rows i) (Waits (r ∷ rows)) (Waits-cons r rows) (waiting rows)
        (All-both (λ i. r.id < i) (Waits rows) (waiting rows) (All-waiting (λ i. r.id < i) rows l)
          (waiting-Waits rows a)) in
    elim (Bool-cases (is_pending r.status && not (nobody r.id))) [
      | inl h ↦
          subst (All (Waits (r ∷ rows))) (sym (waiting_cons r rows h))
            ((r, row_first r rows, ground (arith, h)), rest)
      | inr h ↦ subst (All (Waits (r ∷ rows))) (sym (waiting_past r rows h)) rest
    ]

pub waiting-IsAscending : (rows : List JobRow) → IsAscending (ids rows) → IsAscending (waiting rows)
waiting-IsAscending [] a = unfold select_rows in tt
waiting-IsAscending (r ∷ rows) (l, a) =
    elim (Bool-cases (is_pending r.status && not (nobody r.id))) [
      | inl h ↦
          subst IsAscending (sym (waiting_cons r rows h))
            (All-waiting (λ y. r.id < y) rows l, waiting-IsAscending rows a)
      | inr h ↦ subst IsAscending (sym (waiting_past r rows h)) (waiting-IsAscending rows a)
    ]

pub first-IsAscending : (n : ℕ) (xs : List ℕ) → IsAscending xs → IsAscending (first n xs)
first-IsAscending zero xs a = tt
first-IsAscending (suc n) [] a = tt
first-IsAscending (suc n) (x ∷ xs) (l, a) =
    (All-first (λ y. x < y) n xs l, first-IsAscending n xs a)
