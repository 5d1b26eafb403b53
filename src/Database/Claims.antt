-- ===== src/Database/Claims.antt =====
-- `kClaimPending`: which rows it takes, and that no two claims take the same row, whatever the workers
-- and their clients do in between.
use pgquarry.Base.{
  ℕ, zero, suc, ◌<◌, String, ◌≡◌, inl, inr, refl, Bool, true, false, not, ◌&&◌, List, [], ◌∷◌, ◌++◌,
  arith, ◌==◌, All, All-append, Bool-cases,
}
use pgquarry.Database.{
  processing, JobRow, Database, is_pending, update_rows, delete_rows, contains, select_pending,
  claim_pending_rows, mark_done_row, mark_error_row, write_result_row, write_result_text_row,
  notify, purge_rows,
}

-- The tables, and the next number of the sequence of ids.
pub record Queue : Type 0 where
  pub db : Database
  pub next_id : ℕ

-- A step of a client or of a worker, with the ids that it claims. The sequence gives out no id twice.
pub data Step : Queue → List ℕ → Queue → Type 0 where
  enqueues :
      (q : Queue) (r : JobRow)
      → r.id ≡ q.next_id
      → Step q []
          (record { db = record q.db { jobs = q.db.jobs ++ r ∷ [] }; next_id = suc q.next_id })
  claims :
      (q : Queue) (rank : ℕ → ℕ) (locked : ℕ → Bool) (limit now : ℕ)
      → Step q
          (select_pending locked limit q.db.jobs)
          (record q { db = (claim_pending_rows rank locked limit now q.db).0 })
  marks_done : (q : Queue) (i now : ℕ) → Step q [] (record q { db = mark_done_row i now q.db })
  marks_error :
      (q : Queue) (i now : ℕ) (message : String)
      → Step q [] (record q { db = mark_error_row i message now q.db })
  writes_result :
      (q : Queue) (i now : ℕ) (value : String)
      → Step q [] (record q { db = write_result_row i value now q.db })
  writes_result_text :
      (q : Queue) (i now : ℕ) (value : String)
      → Step q [] (record q { db = write_result_text_row i value now q.db })
  notifies : (q : Queue) (n : ℕ) → Step q [] (record q { db = notify n q.db })
  purges : (q : Queue) (age now : ℕ) → Step q [] (record q { db = purge_rows age now q.db })

-- Steps one after another, with the claim of each.
pub data Steps : Queue → List (List ℕ) → Queue → Type 0 where
  stay : (q : Queue) → Steps q [] q
  go :
      (p q r : Queue) (ids : List ℕ) (later : List (List ℕ))
      → Step p ids q
      → Steps q later r
      → Steps p (ids ∷ later) r

-- The ids that were given out are below the next one.
abbrev pub IsNumbered : Queue → Type 0
IsNumbered q = All (λ (r : JobRow). r.id < q.next_id) q.db.jobs

-- No row with the id waits to be claimed.
abbrev IsTaken : ℕ → List JobRow → Type 0
IsTaken i rows = All (λ (r : JobRow). r.id ≡ i → is_pending r.status ≡ false) rows

-- No id is in two claims.
abbrev pub AreExclusive : List (List ℕ) → Type 0
AreExclusive [] = Unit
AreExclusive (ids ∷ later) =
    ((i : ℕ) → contains ids i ≡ true → All (λ js. contains js i ≡ false) later) × AreExclusive later

module _ (P : JobRow → Type 0) where
  pub All-update_rows :
      (here : JobRow → Bool) (set : JobRow → JobRow)
      → ((r : JobRow) → P r → P (set r))
      → (rows : List JobRow) → All P rows
      → All P (update_rows here set rows)
  unfolding update_rows
  All-update_rows here set k [] a = tt
  All-update_rows here set k (r ∷ rows) (p, a) = elim (Bool-cases (here r)) [
    | inl h ↦ rw h (k r p, All-update_rows here set k rows a)
    | inr h ↦ rw h (p, All-update_rows here set k rows a)
  ]

  pub All-delete_rows :
      (here : JobRow → Bool) (rows : List JobRow) → All P rows → All P (delete_rows here rows)
  unfolding delete_rows
  All-delete_rows here [] a = tt
  All-delete_rows here (r ∷ rows) (p, a) = elim (Bool-cases (here r)) [
    | inl h ↦ rw h (All-delete_rows here rows a)
    | inr h ↦ rw h (p, All-delete_rows here rows a)
  ]

All-weaken :
    (P Q : JobRow → Type 0) (rows : List JobRow)
    → ((r : JobRow) → P r → Q r)
    → All P rows
    → All Q rows
All-weaken P Q [] k a = tt
All-weaken P Q (r ∷ rows) k (p, a) = (k r p, All-weaken P Q rows k a)

Step-IsNumbered : (p q : Queue) (ids : List ℕ) → Step p ids q → IsNumbered p → IsNumbered q
unfolding claim_pending_rows mark_done_row mark_error_row write_result_row write_result_text_row
    notify purge_rows
Step-IsNumbered p q ids (enqueues _ r e) a =
    All-append _ p.db.jobs (r ∷ [])
      (All-weaken (λ s. s.id < p.next_id) (λ s. s.id < suc p.next_id) p.db.jobs
        (λ s h. omega (arith, h)) a)
      (omega (arith, e), tt)
Step-IsNumbered p q ids (claims _ rank locked limit now) a =
    All-update_rows _ _ _ (λ r h. h) p.db.jobs a
Step-IsNumbered p q ids (marks_done _ i now) a = All-update_rows _ _ _ (λ r h. h) p.db.jobs a
Step-IsNumbered p q ids (marks_error _ i now m) a = All-update_rows _ _ _ (λ r h. h) p.db.jobs a
Step-IsNumbered p q ids (writes_result _ i now v) a = All-update_rows _ _ _ (λ r h. h) p.db.jobs a
Step-IsNumbered p q ids (writes_result_text _ i now v) a =
    All-update_rows _ _ _ (λ r h. h) p.db.jobs a
Step-IsNumbered p q ids (notifies _ n) a = a
Step-IsNumbered p q ids (purges _ age now) a = All-delete_rows _ _ p.db.jobs a

Step-IsTaken :
    (p q : Queue) (ids : List ℕ) (i : ℕ)
    → Step p ids q
    → i < p.next_id
    → IsTaken i p.db.jobs
    → (i < q.next_id) × IsTaken i q.db.jobs
unfolding claim_pending_rows mark_done_row mark_error_row write_result_row write_result_text_row
    notify purge_rows
Step-IsTaken p q ids i (enqueues _ r e) l a = (
  omega (arith, l),
  All-append _ p.db.jobs (r ∷ []) a ((λ h. absurd (omega (arith, h, e, l))), tt),
)
Step-IsTaken p q ids i (claims _ rank locked limit now) l a =
    (l, All-update_rows _ _ _ (λ r h e. refl) p.db.jobs a)
Step-IsTaken p q ids i (marks_done _ j now) l a =
    (l, All-update_rows _ _ _ (λ r h e. refl) p.db.jobs a)
Step-IsTaken p q ids i (marks_error _ j now m) l a =
    (l, All-update_rows _ _ _ (λ r h e. refl) p.db.jobs a)
Step-IsTaken p q ids i (writes_result _ j now v) l a =
    (l, All-update_rows _ _ _ (λ r h e. refl) p.db.jobs a)
Step-IsTaken p q ids i (writes_result_text _ j now v) l a =
    (l, All-update_rows _ _ _ (λ r h e. refl) p.db.jobs a)
Step-IsTaken p q ids i (notifies _ n) l a = (l, a)
Step-IsTaken p q ids i (purges _ age now) l a = (l, All-delete_rows _ _ p.db.jobs a)

-- A claim takes no row that is not pending.
select_pending-IsTaken :
    (locked : ℕ → Bool) (n i : ℕ) (rows : List JobRow)
    → IsTaken i rows
    → contains (select_pending locked n rows) i ≡ false
unfolding select_pending
select_pending-IsTaken locked n i [] a = refl
select_pending-IsTaken locked zero i (r ∷ rows) a = refl
select_pending-IsTaken locked (suc n) i (r ∷ rows) (t, a) = ground (
  arith,
  t,
  select_pending-IsTaken locked n i rows a,
  select_pending-IsTaken locked (suc n) i rows a,
)

-- The rows that a claim takes are no longer pending.
claimed-IsTaken :
    (ids : List ℕ) (now i : ℕ) (rows : List JobRow)
    → contains ids i ≡ true
    → IsTaken i (
        update_rows
          (λ r. contains ids r.id)
          (λ r. record r { status = processing; updated_at = now })
          rows)
unfolding update_rows
claimed-IsTaken ids now i [] h = tt
claimed-IsTaken ids now i (r ∷ rows) h = elim (Bool-cases (contains ids r.id)) [
  | inl e ↦ rw e ((λ k. refl), claimed-IsTaken ids now i rows h)
  | inr e ↦ rw e ((λ k. cc), claimed-IsTaken ids now i rows h)
]

-- A claim takes ids that were given out.
select_pending-IsNumbered :
    (locked : ℕ → Bool) (n i bound : ℕ) (rows : List JobRow)
    → All (λ (r : JobRow). r.id < bound) rows
    → contains (select_pending locked n rows) i ≡ true
    → i < bound
unfolding select_pending
select_pending-IsNumbered locked n i bound [] a h = cc
select_pending-IsNumbered locked zero i bound (r ∷ rows) a h = cc
select_pending-IsNumbered locked (suc n) i bound (r ∷ rows) (l, a) h =
    elim (Bool-cases (is_pending r.status && not (locked r.id))) [
      | inl e ↦ elim (Bool-cases (r.id == i)) [
        | inl k ↦ ground (arith, l)
        | inr k ↦ select_pending-IsNumbered locked n i bound rows a (ground (arith, h, e, k))
      ]
      | inr e ↦ select_pending-IsNumbered locked (suc n) i bound rows a (ground (arith, h, e))
    ]

Step-not_claimed :
    (p q : Queue) (ids : List ℕ) (i : ℕ)
    → Step p ids q
    → IsTaken i p.db.jobs
    → contains ids i ≡ false
Step-not_claimed p q ids i (enqueues _ r e) a = refl
Step-not_claimed p q ids i (claims _ rank locked limit now) a =
    select_pending-IsTaken locked limit i p.db.jobs a
Step-not_claimed p q ids i (marks_done _ j now) a = refl
Step-not_claimed p q ids i (marks_error _ j now m) a = refl
Step-not_claimed p q ids i (writes_result _ j now v) a = refl
Step-not_claimed p q ids i (writes_result_text _ j now v) a = refl
Step-not_claimed p q ids i (notifies _ n) a = refl
Step-not_claimed p q ids i (purges _ age now) a = refl

-- An id that a step claims is given out, and afterwards taken.
Step-claimed :
    (p q : Queue) (ids : List ℕ) (i : ℕ)
    → Step p ids q
    → IsNumbered p
    → contains ids i ≡ true
    → (i < q.next_id) × IsTaken i q.db.jobs
unfolding claim_pending_rows
Step-claimed p q ids i (enqueues _ r e) a h = cc
Step-claimed p q ids i (claims _ rank locked limit now) a h = (
  select_pending-IsNumbered locked limit i p.next_id p.db.jobs a h,
  claimed-IsTaken (select_pending locked limit p.db.jobs) now i p.db.jobs h,
)
Step-claimed p q ids i (marks_done _ j now) a h = cc
Step-claimed p q ids i (marks_error _ j now m) a h = cc
Step-claimed p q ids i (writes_result _ j now v) a h = cc
Step-claimed p q ids i (writes_result_text _ j now v) a h = cc
Step-claimed p q ids i (notifies _ n) a h = cc
Step-claimed p q ids i (purges _ age now) a h = cc

Steps-IsTaken :
    (p q : Queue) (takes : List (List ℕ)) (i : ℕ)
    → Steps p takes q
    → i < p.next_id
    → IsTaken i p.db.jobs
    → All (λ js. contains js i ≡ false) takes
Steps-IsTaken p q takes i (stay _) l a = tt
Steps-IsTaken p q takes i (go _ m _ ids later s t) l a =
    let k = Step-IsTaken p m ids i s l a in
    (Step-not_claimed p m ids i s a, Steps-IsTaken m q later i t k.0 k.1)

-- Whatever the clients and the workers do, in whatever order, no job is in two claims: an id that one
-- claim takes is in none of the later claims, where the ids of the rows are below the next id of the
-- sequence at the start.
pub claims-AreExclusive :
    (p q : Queue) (takes : List (List ℕ)) → IsNumbered p → Steps p takes q → AreExclusive takes
claims-AreExclusive p q takes a (stay _) = tt
claims-AreExclusive p q takes a (go _ m _ ids later s t) = (
  (λ i h. let k = Step-claimed p m ids i s a h in Steps-IsTaken m q later i t k.0 k.1),
  claims-AreExclusive m q later (Step-IsNumbered p m ids s a) t,
)
