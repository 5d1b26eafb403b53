-- ===== src/Llama/Placed.antt =====
-- The entries that `build_batch` makes: each text is a sequence of its own, at the positions from 0 on.
use pgquarry.Base.{
  ℕ, suc, ◌≡◌, ◌≢◌, ◌≤◌, ◌<◌, ◌+◌, ◌∙◌, ap, inl, inr, Bool-cases, ◌||◌, refl, sym, not, List, [],
  ◌∷◌, ◌++◌, arith, length, All, All-append, ◌==◌,
}
use mathlib.Core.List.{append-nil}
use pgquarry.Llama.{
  build_from, sequence, Entry, TokenizedText, Backend, build_batch, is_empty, max_seq_per_chunk,
}
use pgquarry.Llama.Chunks.{is_empty-nil, IsKept, IsLegal}
use pgquarry.Llama.Isolated.{entries_of, numbered, IsWellFormed}
use pgquarry.Llama.Limits.{length-build_batch}

entries_of-append :
    (i : ℕ) (xs ys : List Entry) → entries_of i (xs ++ ys) ≡ entries_of i xs ++ entries_of i ys
entries_of-append i [] ys = refl
entries_of-append i (x ∷ xs) ys = elim (Bool-cases (x.seq_id == i)) [
  | inl h ↦ rw (h, entries_of-append i xs ys) refl
  | inr h ↦ rw (h, entries_of-append i xs ys) refl
]

sequence-own : (i p : ℕ) (ts : List ℕ) → entries_of i (sequence i p ts) ≡ numbered p ts
unfolding sequence
sequence-own i p [] = refl
sequence-own i p (t ∷ ts) = ground (arith, sequence-own i (suc p) ts)

sequence-other : (s i p : ℕ) (ts : List ℕ) → s ≢ i → entries_of i (sequence s p ts) ≡ []
unfolding sequence
sequence-other s i p [] n = refl
sequence-other s i p (t ∷ ts) n = ground (arith, n, sequence-other s i (suc p) ts n)

module _ (b : Backend) where
  build_from-kept :
      (s : ℕ) (item : TokenizedText) (items : List TokenizedText)
      → IsKept b item
      → build_from s (item ∷ items) ≡ sequence s 0 item.tokens ++ build_from (suc s) items
  unfolding build_from
  build_from-kept s item items k = elim (Bool-cases (not item.ok || is_empty item.tokens)) [
    | inl h ↦ absurd (ground (arith, k.was_ok, k.filled, is_empty-nil item.tokens, h))
    | inr h ↦ rw h refl
  ]

  build_from-later :
      (s i : ℕ) (items : List TokenizedText)
      → i < s
      → All (IsKept b) items
      → entries_of i (build_from s items) ≡ []
  build_from-later s i [] l k = unfold build_from in refl
  build_from-later s i (item ∷ items) l (k, ks) =
      rw
        (
          build_from-kept s item items k,
          entries_of-append i (sequence s 0 item.tokens) (build_from (suc s) items),
          sequence-other s i 0 item.tokens (λ e. omega (arith, l, e)),
        )
        (build_from-later (suc s) i items (omega (arith, l)) ks)

  build_from-own :
      (s i : ℕ) (before : List TokenizedText) (item : TokenizedText) (after : List TokenizedText)
      → i ≡ s + length before
      → All (IsKept b) (before ++ item ∷ after)
      → entries_of i (build_from s (before ++ item ∷ after)) ≡ numbered 0 item.tokens
  build_from-own s i [] item after e (k, ks) =
      ap (entries_of i) (build_from-kept s item after k)
      ∙ entries_of-append i (sequence s 0 item.tokens) (build_from (suc s) after)
      ∙ ap (λ ts. entries_of i (sequence s 0 item.tokens) ++ ts)
          (build_from-later (suc s) i after (omega (arith, e)) ks)
      ∙ append-nil (entries_of i (sequence s 0 item.tokens))
      ∙ ap (λ n. entries_of n (sequence s 0 item.tokens)) (omega (arith, e))
      ∙ sequence-own s 0 item.tokens
  build_from-own s i (first ∷ before) item after e (k, ks) =
      ap (entries_of i) (build_from-kept s first (before ++ item ∷ after) k)
      ∙ entries_of-append i (sequence s 0 first.tokens)
          (build_from (suc s) (before ++ item ∷ after))
      ∙ ap (λ ts. ts ++ entries_of i (build_from (suc s) (before ++ item ∷ after)))
          (sequence-other s i 0 first.tokens (λ q. omega (arith, e, q)))
      ∙ build_from-own (suc s) i before item after (omega (arith, e)) ks

  build_from-in_place :
      (s i : ℕ) (items : List TokenizedText)
      → All (IsKept b) items
      → (ts : List ℕ) × (entries_of i (build_from s items) ≡ numbered 0 ts)
  build_from-in_place s i [] k = ([], unfold build_from in refl)
  build_from-in_place s i (item ∷ items) (k, ks) = elim (Bool-cases (s == i)) [
    | inl h ↦ (item.tokens, build_from-own s i [] item items (ground (arith, h)) (k, ks))
    | inr h ↦
        let (ts, e) = build_from-in_place (suc s) i items ks in
        (
          ts,
          ap (entries_of i) (build_from-kept s item items k)
              ∙ entries_of-append i (sequence s 0 item.tokens) (build_from (suc s) items)
              ∙ ap (λ xs. xs ++ entries_of i (build_from (suc s) items))
                  (sequence-other s i 0 item.tokens (ground (arith, h)))
              ∙ e,
        )
  ]

  sequence-below :
      (n s p : ℕ) (ts : List ℕ) → s < n → All (λ (e : Entry). e.seq_id < n) (sequence s p ts)
  unfolding sequence
  sequence-below n s p [] l = tt
  sequence-below n s p (t ∷ ts) l = (l, sequence-below n s (suc p) ts l)

  build_from-below :
      (n s : ℕ) (items : List TokenizedText)
      → s + length items ≤ n
      → All (IsKept b) items
      → All (λ (e : Entry). e.seq_id < n) (build_from s items)
  build_from-below n s [] l k = unfold build_from in tt
  build_from-below n s (item ∷ items) l (k, ks) = rw (build_from-kept s item items k) (
      All-append (λ (e : Entry). e.seq_id < n) (sequence s 0 item.tokens) (build_from (suc s) items)
        (sequence-below n s 0 item.tokens (omega (arith, l)))
        (build_from-below n (suc s) items (omega (arith, l)) ks))

  build_from-filled :
      (items : List TokenizedText) → items ≢ [] → All (IsKept b) items → build_from 0 items ≢ []
  build_from-filled [] n k e = n refl
  build_from-filled (item ∷ items) n (k, ks) e =
      starts item.tokens k.filled (sym (build_from-kept 0 item items k) ∙ e)
    where
      starts : (ts : List ℕ) → ts ≢ [] → sequence 0 0 ts ++ build_from 1 items ≢ []
      starts [] m h = m refl
      starts (t ∷ ts) m h = unfold sequence in cc

  -- The batch of a legal chunk is well-formed.
  pub build_batch-IsWellFormed :
      (chunk : List TokenizedText) → IsLegal b chunk → IsWellFormed b (build_batch chunk)
  unfolding build_batch
  build_batch-IsWellFormed chunk l = record {
    filled = build_from-filled chunk l.some_text l.kept;
    few = (length-build_batch b chunk l).1;
    in_range = build_from-below (max_seq_per_chunk b) 0 chunk (omega (arith, l.sequences)) l.kept;
    in_place = λ i. build_from-in_place 0 i chunk l.kept;
  }

  -- Each text has its sequence, by its place in the chunk.
  pub build_batch-own :
      (before : List TokenizedText) (item : TokenizedText) (after : List TokenizedText)
      → IsLegal b (before ++ item ∷ after)
      → entries_of (length before) (build_batch (before ++ item ∷ after)) ≡ numbered 0 item.tokens
  unfolding build_batch
  build_batch-own before item after l =
      build_from-own 0 (length before) before item after (omega arith) l.kept
