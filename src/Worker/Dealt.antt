-- ===== src/Worker/Dealt.antt =====
-- The two lists that the claimed jobs are dealt out to: each job is in one of them, and no id is in
-- both.
use pgquarry.Base.{
  ℕ, ◌<◌, ◌≢◌, inl, inr, sym, Bool, true, false, List, [], ◌∷◌, map, arith, All, Bool-cases,
}
use pgquarry.Store.{ClaimedJob}
use pgquarry.Store.Claim.{IsAscending}
use pgquarry.Store.Returned.{AreSeparate}
use pgquarry.Dispatch.Batch.{Fresh, Distinct}
use pgquarry.Worker.{of_type, is_generate}

abbrev pub job_ids : List ClaimedJob → List ℕ
job_ids jobs = map (λ (j : ClaimedJob). j.id) jobs

job_ids-Fresh : (i : ℕ) (jobs : List ClaimedJob) → All (λ y. i ≢ y) (job_ids jobs) → Fresh i jobs
job_ids-Fresh i [] a = tt
job_ids-Fresh i (job ∷ jobs) (n, a) = (n, job_ids-Fresh i jobs a)

pub AreSeparate-Distinct : (jobs : List ClaimedJob) → AreSeparate (job_ids jobs) → Distinct jobs
AreSeparate-Distinct [] a = tt
AreSeparate-Distinct (job ∷ jobs) (n, a) =
    (job_ids-Fresh job.id jobs n, AreSeparate-Distinct jobs a)

above_differ : (x : ℕ) (xs : List ℕ) → All (λ y. x < y) xs → All (λ y. x ≢ y) xs
above_differ x [] a = tt
above_differ x (y ∷ xs) (l, a) = (λ e. omega (arith, l, e), above_differ x xs a)

pub IsAscending-AreSeparate : (xs : List ℕ) → IsAscending xs → AreSeparate xs
IsAscending-AreSeparate [] a = tt
IsAscending-AreSeparate (x ∷ xs) (l, a) = (above_differ x xs l, IsAscending-AreSeparate xs a)

pub All-of_type :
    (P : ClaimedJob → Type 0) (g : Bool) (jobs : List ClaimedJob)
    → All P jobs
    → All P (of_type g jobs)
unfolding of_type
All-of_type P g [] a = tt
All-of_type P true (job ∷ jobs) (p, a) = elim (Bool-cases (is_generate job.job_type)) [
  | inl h ↦ rw h (p, All-of_type P true jobs a)
  | inr h ↦ rw h (All-of_type P true jobs a)
]
All-of_type P false (job ∷ jobs) (p, a) = elim (Bool-cases (is_generate job.job_type)) [
  | inl h ↦ rw h (All-of_type P false jobs a)
  | inr h ↦ rw h (p, All-of_type P false jobs a)
]

-- What holds of both lists holds of all.
pub All-dealt :
    (P : ClaimedJob → Type 0) (jobs : List ClaimedJob)
    → All P (of_type false jobs)
    → All P (of_type true jobs)
    → All P jobs
unfolding of_type
All-dealt P [] a b = tt
All-dealt P (job ∷ jobs) a b = elim (Bool-cases (is_generate job.job_type)) [
  | inl h ↦
      let b' : P job × All P (of_type true jobs) = rw h at b in
      let a' : All P (of_type false jobs) = rw h at a in (b'.0, All-dealt P jobs a' b'.1)
  | inr h ↦
      let b' : All P (of_type true jobs) = rw h at b in
      let a' : P job × All P (of_type false jobs) = rw h at a in (a'.0, All-dealt P jobs a'.1 b')
]

pub Distinct-of_type :
    (g : Bool) (jobs : List ClaimedJob) → Distinct jobs → Distinct (of_type g jobs)
unfolding of_type
Distinct-of_type g [] d = tt
Distinct-of_type true (job ∷ jobs) (f, d) = elim (Bool-cases (is_generate job.job_type)) [
  | inl h ↦ rw h (All-of_type (λ j. job.id ≢ j.id) true jobs f, Distinct-of_type true jobs d)
  | inr h ↦ rw h (Distinct-of_type true jobs d)
]
Distinct-of_type false (job ∷ jobs) (f, d) = elim (Bool-cases (is_generate job.job_type)) [
  | inl h ↦ rw h (Distinct-of_type false jobs d)
  | inr h ↦ rw h (All-of_type (λ j. job.id ≢ j.id) false jobs f, Distinct-of_type false jobs d)
]

-- No id of one list is in the other.
abbrev pub AreApart : List ClaimedJob → List ClaimedJob → Type 0
AreApart xs ys = All (λ (job : ClaimedJob). Fresh job.id ys) xs

apart_later :
    (job : ClaimedJob) (xs ys : List ClaimedJob)
    → Fresh job.id xs
    → AreApart xs ys
    → AreApart xs (job ∷ ys)
apart_later job [] ys f a = tt
apart_later job (x ∷ xs) ys (n, f) (h, a) = ((λ e. n (sym e), h), apart_later job xs ys f a)

pub AreApart-sym : (xs ys : List ClaimedJob) → AreApart xs ys → AreApart ys xs
AreApart-sym [] ys a = apart_nil ys
  where
    apart_nil : (ys : List ClaimedJob) → AreApart ys []
    apart_nil [] = tt
    apart_nil (y ∷ ys) = (tt, apart_nil ys)
AreApart-sym (x ∷ xs) ys (f, a) = apart_later x ys xs f (AreApart-sym xs ys a)

pub of_type-AreApart :
    (jobs : List ClaimedJob) → Distinct jobs → AreApart (of_type false jobs) (of_type true jobs)
unfolding of_type
of_type-AreApart [] d = tt
of_type-AreApart (job ∷ jobs) (f, d) = elim (Bool-cases (is_generate job.job_type)) [
  | inl h ↦ rw h (
      apart_later job (of_type false jobs) (of_type true jobs)
        (All-of_type (λ j. job.id ≢ j.id) false jobs f) (of_type-AreApart jobs d))
  | inr h ↦ rw h (All-of_type (λ j. job.id ≢ j.id) true jobs f, of_type-AreApart jobs d)
]
