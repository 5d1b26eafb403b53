-- ===== src/Extension/Polling.antt =====
-- `embed_sync` and `generate_sync`: a job is enqueued, and its row is polled until it has ended or the
-- timeout has passed. What the polls see, and the clock, are parameters.
use Prim.Native.String.{◌++◌ as ◌++ₛ◌}
use pgquarry.Base.{
  ℕ, zero, suc, ◌+◌, ◌≤◌, ◌<◌, String, ℤ, pos, ◌≤ℤ◌, ◌≡◌, ◌≢◌, ap, ◌⊎◌, inl, inr, refl, Bool, false,
  Option, none, some, arith, leb_ℤ, if◌then◌else◌, subst, Bool-cases, Option-cases,
}
use pgquarry.Database.{Status, pending, processing, done, error, JobRow}
use pgquarry.Extension.{Catalog, embed_async, generate_async}

-- The rounds of the loop, from 0 on.
pub record Polls : Type 0 where
  -- the row of the job in the n-th round, if there is one
  pub seen : ℕ → Option JobRow
  -- the whole milliseconds since the start, in the n-th round
  pub elapsed : ℕ → ℕ
  -- how `RAISE` prints an id and a timeout
  pub print_id : ℕ → String
  pub print_timeout : ℤ → String

-- How a call ends: with the OUT parameter, or with an error; or it still polls after the given number
-- of rounds.
pub data Polled : Type 0 where
  returned : Option String → Polled
  raised : String → Polled
  still_polling : Polled

-- A text of the row as `%` prints it.
abbrev pub shown : Option String → String
shown none = "<NULL>"
shown (some t) = t

module _ (p : Polls) (procedure : String) (get : JobRow → Option String) (job_id : ℕ)
    (timeout : Option ℤ) where
  abbrev pub failed : JobRow → Polled
  failed r = raised (
      "pgquarry."
      ++ₛ (procedure
          ++ₛ (": job " ++ₛ (p.print_id job_id ++ₛ (" failed: " ++ₛ shown r.error_text)))))

  abbrev pub printed_timeout : Option ℤ → String
  printed_timeout none = "<NULL>"
  printed_timeout (some t) = p.print_timeout t

  abbrev pub timed_out : Polled
  timed_out = raised (
      "pgquarry."
      ++ₛ (procedure
          ++ₛ (": job "
              ++ₛ (p.print_id job_id
                  ++ₛ (" did not complete within "
                      ++ₛ (printed_timeout timeout ++ₛ "ms — is pgquarry_worker running?"))))))

  -- The test of the timeout; a comparison with NULL is not true.
  unfoldable pub passed : ℕ → Bool
  passed n = elim timeout [ none ↦ false | some t ↦ leb_ℤ t (pos (p.elapsed n)) ]

  -- The status of the row, if it has one that ends the loop.
  unfoldable pub ended : Option JobRow → Option Polled
  ended none = none
  ended (some r) = elim r.status [
    | done ↦ some (returned (get r))
    | error ↦ some (failed r)
    | pending ↦ none
    | processing ↦ none
  ]

  -- The loop, from the n-th round on, for at most so many rounds.
  unfoldable pub poll : ℕ → ℕ → Polled
  poll zero n = still_polling
  poll (suc fuel) n =
      let rest = poll fuel (suc n) in
      elim (ended (p.seen n)) [ some end ↦ end | none ↦ if passed n then timed_out else rest ]

-- `embed_sync` and `generate_sync`, for at most so many rounds, with the catalog after the COMMIT.
unfoldable pub embed_sync : Polls → ℕ → ℕ → String → Option ℤ → Catalog → Polled × Catalog
embed_sync p fuel now input timeout c =
    let (job_id, c') = embed_async now input c in
    (poll p "embed_sync" (λ r. r.result) job_id timeout fuel 0, c')

unfoldable pub generate_sync :
    Polls → ℕ → ℕ → String → Option ℤ → Option ℤ → Catalog → Polled × Catalog
generate_sync p fuel now input max_tokens timeout c =
    let (job_id, c') = generate_async now input max_tokens c in
    (poll p "generate_sync" (λ r. r.result_text) job_id timeout fuel 0, c')

-- The row is not there, or it is neither done nor in error.
abbrev pub IsUnfinished : Option JobRow → Type 0
IsUnfinished none = Unit {0}
IsUnfinished (some r) = (r.status ≢ done) × (r.status ≢ error)

module _ (p : Polls) (procedure : String) (get : JobRow → Option String) (job_id : ℕ) where
  -- How the loop ends in a round: with the result of a job that is done, with the error of one that
  -- failed, or, where it has not ended, as the time has passed.
  pub data EndsIn (t : ℤ) (n : ℕ) : Polled → Type 0 where
    got : (r : JobRow) → p.seen n ≡ some r → r.status ≡ done → EndsIn t n (returned (get r))
    failed_job :
        (r : JobRow)
        → p.seen n ≡ some r
        → r.status ≡ error
        → EndsIn t n (failed p procedure get job_id (some t) r)
    late :
        IsUnfinished (p.seen n)
        → t ≤ℤ pos (p.elapsed n)
        → EndsIn t n (timed_out p procedure get job_id (some t))

  ended-EndsIn :
      (t : ℤ) (n : ℕ) (end : Polled)
      → ended p procedure get job_id (some t) (p.seen n) ≡ some end
      → EndsIn t n end
  unfolding ended
  ended-EndsIn t n end h = of_row (p.seen n) refl h
    where
      of_status :
          (r : JobRow) (s : Status)
          → p.seen n ≡ some r
          → r.status ≡ s
          → (elim s [
            | done ↦ some (returned (get r))
            | error ↦ some (failed p procedure get job_id (some t) r)
            | pending ↦ none
            | processing ↦ none
          ])
            ≡ some end
          → EndsIn t n end
      of_status r done e k h = subst (EndsIn t n) (ground (arith, h)) (got r e k)
      of_status r error e k h = subst (EndsIn t n) (ground (arith, h)) (failed_job r e k)
      of_status r pending e k h = absurd (ground (arith, h))
      of_status r processing e k h = absurd (ground (arith, h))

      of_row :
          (o : Option JobRow)
          → p.seen n ≡ o
          → ended p procedure get job_id (some t) o ≡ some end
          → EndsIn t n end
      of_row none e h = absurd (ground (arith, h))
      of_row (some r) e h = of_status r r.status e refl h

  ended-IsUnfinished :
      (timeout : Option ℤ) (o : Option JobRow)
      → ended p procedure get job_id timeout o ≡ none
      → IsUnfinished o
  unfolding ended
  ended-IsUnfinished timeout none h = tt
  ended-IsUnfinished timeout (some r) h =
      (λ e. absurd (of_done r.status e h), λ e. absurd (of_error r.status e h))
    where
      of_done :
          (s : Status)
          → s ≡ done
          → (elim s [
            | done ↦ some (returned (get r))
            | error ↦ some (failed p procedure get job_id timeout r)
            | pending ↦ none
            | processing ↦ none
          ])
            ≡ none
          → ⊥
      of_done s e h = ground (arith, e, h)

      of_error :
          (s : Status)
          → s ≡ error
          → (elim s [
            | done ↦ some (returned (get r))
            | error ↦ some (failed p procedure get job_id timeout r)
            | pending ↦ none
            | processing ↦ none
          ])
            ≡ none
          → ⊥
      of_error s e h = ground (arith, e, h)

  unfinished-ended :
      (timeout : Option ℤ) (o : Option JobRow)
      → IsUnfinished o
      → ended p procedure get job_id timeout o ≡ none
  unfolding ended
  unfinished-ended timeout none h = refl
  unfinished-ended timeout (some r) (n, m) = of_status r.status n m
    where
      of_status :
          (s : Status)
          → s ≢ done
          → s ≢ error
          → (elim s [
            | done ↦ some (returned (get r))
            | error ↦ some (failed p procedure get job_id timeout r)
            | pending ↦ none
            | processing ↦ none
          ])
            ≡ none
      of_status done n m = absurd (n refl)
      of_status error n m = absurd (m refl)
      of_status pending n m = refl
      of_status processing n m = refl

  poll_round :
      (t : ℤ) (fuel n : ℕ)
      → EndsIn t n (poll p procedure get job_id (some t) (suc fuel) n)
        ⊎ ((leb_ℤ t (pos (p.elapsed n)) ≡ false)
            × (poll p procedure get job_id (some t) (suc fuel) n
                ≡ poll p procedure get job_id (some t) fuel (suc n)))
  unfolding poll passed
  poll_round t fuel n = elim (Option-cases (ended p procedure get job_id (some t) (p.seen n))) [
    | inr (end, e) ↦ rw (poll, e) (inl (ended-EndsIn t n end e))
    | inl e ↦ elim (Bool-cases (leb_ℤ t (pos (p.elapsed n)))) [
      | inl h ↦
          rw (poll, e, passed, h)
            (inl (late (ended-IsUnfinished (some t) (p.seen n) e) (ground (arith, h))))
      | inr h ↦ inr (h, rw (poll, e, passed, h) refl)
    ]
  ]

  -- By the last round the time has passed.
  poll-EndsIn :
      (t : ℤ) (rounds n fuel : ℕ)
      → t ≤ℤ pos (p.elapsed (n + rounds))
      → rounds < fuel
      → (k : ℕ) × (k ≤ n + rounds) × EndsIn t k (poll p procedure get job_id (some t) fuel n)
  poll-EndsIn t rounds n zero h l = absurd (omega (arith, l))
  poll-EndsIn t zero n (suc fuel) h l = elim (poll_round t fuel n) [
    | inl e ↦ (n, omega arith, e)
    | inr (early, e) ↦
        let same : p.elapsed (n + 0) ≡ p.elapsed n = ap p.elapsed (omega arith) in
        absurd (ground (arith, early, h, same))
  ]
  poll-EndsIn t (suc rounds) n (suc fuel) h l = elim (poll_round t fuel n) [
    | inl e ↦ (n, omega arith, e)
    | inr (early, e) ↦
        let q : n + suc rounds ≡ suc n + rounds = omega arith in
        let (k, b, f) =
          poll-EndsIn t rounds (suc n) fuel (subst (λ m. t ≤ℤ pos (p.elapsed m)) q h)
            (omega (arith, l)) in
        (k, omega (arith, b), rw e f)
  ]

-- `embed_sync` ends: where the clock reaches the timeout by some round, the call is over by that round,
-- however many more it may run. It then gives the result of the job that it enqueued, if that is done,
-- raises its error, if it failed, or else, where it has not ended and the timeout has passed in that
-- round, it raises that.
pub embed_sync_ends :
    (p : Polls) (last fuel now : ℕ) (input : String) (t : ℤ) (c : Catalog)
    → t ≤ℤ pos (p.elapsed last)
    → last < fuel
    → (k : ℕ) × (k ≤ last)
      × EndsIn p "embed_sync"
          (λ r. r.result)
          c.next_id
          t
          k
          (embed_sync p fuel now input (some t) c).0
unfolding embed_sync embed_async
embed_sync_ends p last fuel now input t c h l =
    let q : last ≡ 0 + last = omega arith in
    let (k, b, e) =
      poll-EndsIn p "embed_sync" (λ r. r.result) c.next_id t last 0 fuel
        (subst (λ m. t ≤ℤ pos (p.elapsed m)) q h) l in
    (k, omega (arith, b), e)

poll_on :
    (p : Polls) (procedure : String) (get : JobRow → Option String) (job_id fuel n : ℕ)
    → ((m : ℕ) → IsUnfinished (p.seen m))
    → poll p procedure get job_id none fuel n ≡ still_polling
unfolding poll passed
poll_on p procedure get job_id zero n h = refl
poll_on p procedure get job_id (suc fuel) n h =
    rw (poll, unfinished-ended p procedure get job_id none (p.seen n) (h n))
      (poll_on p procedure get job_id fuel (suc n) h)

-- Without a timeout (NULL) `embed_sync` never ends where its job does not: after any number of rounds it
-- still polls.
pub embed_sync_polls_on :
    (p : Polls) (fuel now : ℕ) (input : String) (c : Catalog)
    → ((n : ℕ) → IsUnfinished (p.seen n))
    → (embed_sync p fuel now input none c).0 ≡ still_polling
unfolding embed_sync embed_async
embed_sync_polls_on p fuel now input c h = poll_on p "embed_sync" (λ r. r.result) c.next_id fuel 0 h
