-- ===== src/Llama/Isolated.antt =====
-- What `embed_batch` relies on in llama.cpp, and lemmas on the writes of `results` and on the rounds
-- of `tokenize_batch`.
use pgquarry.Base.{
  ℕ, zero, suc, ◌≤◌, ◌<◌, ◌^◌, ◌==◌, All, ◌≡◌, ◌≢◌, refl, ap, ℤ, pos, negsuc, Bool, true, false,
  some, List, [], ◌∷◌, ◌++◌, map, arith, ltb, if◌then◌else◌, length, Bool-cases, inl, inr,
}
use pgquarry.Store.Literal.{Float}
use pgquarry.Llama.{
  Entry, TokenizedText, Backend, take, set, is_empty, build_batch, max_seq_per_chunk, tokenized,
  extracted, extract_embeddings, Chunking, store, flush_chunk,
}
use pgquarry.Llama.Chunks.{is_empty-nil}

-- The tokens of one sequence of a batch, each with its position.
abbrev pub entries_of : ℕ → List Entry → List (ℕ × ℕ)
entries_of i [] = []
entries_of i (e ∷ entries) =
    let rest = entries_of i entries in if e.seq_id == i then (e.token, e.position) ∷ rest else rest

-- Tokens at the positions from one on.
abbrev pub numbered : ℕ → List ℕ → List (ℕ × ℕ)
numbered position [] = []
numbered position (t ∷ ts) = (t, position) ∷ numbered (suc position) ts

-- A batch within the limits of the context, in which each sequence has the positions from 0 on.
pub record IsWellFormed (b : Backend) (batch : List Entry) : Type 0 where
  pub filled : batch ≢ []
  pub few : length batch ≤ b.n_batch
  pub in_range : All (λ (e : Entry). e.seq_id < max_seq_per_chunk b) batch
  pub in_place : (i : ℕ) → (ts : List ℕ) × (entries_of i batch ≡ numbered 0 ts)

-- What llama.cpp promises of a context: it encodes a well-formed batch and not an empty one, and the
-- vector of a sequence depends on the tokens of that sequence alone, where they are at the positions
-- from 0 on. `n_batch` is set to `n_ctx` at least where the context is made, and is below 2^30.
pub record Isolates (b : Backend) (vector_of : List ℕ → List Float) : Type 0 where
  pub encodes : (batch : List Entry) → IsWellFormed b batch → b.encode batch ≡ true
  pub refuses_empty : b.encode [] ≡ false
  pub isolated :
      (batch : List Entry) (i t : ℕ) (ts : List ℕ)
      → IsWellFormed b batch
      → entries_of i batch ≡ numbered 0 (t ∷ ts)
      → b.embeddings_seq batch i ≡ some (vector_of (t ∷ ts))
  pub whole_context : b.n_ctx ≤ b.n_batch
  pub int_batch : b.n_batch < 2 ^ 30

pub store-append :
    (xs : List TokenizedText) (x : TokenizedText) (f : TokenizedText → List Float)
    (r : List (List Float))
    → store (xs ++ x ∷ []) (map f (xs ++ x ∷ [])) r
      ≡ set (store xs (map f xs) r) x.original_index (f x)
unfolding store
store-append [] x f r = refl
store-append (y ∷ ys) x f r = store-append ys x f (set r y.original_index (f y))

set-append :
    (before after : List (List Float)) (old v : List Float)
    → set (before ++ old ∷ after) (length before) v ≡ before ++ v ∷ after
set-append [] after old v = refl
set-append (x ∷ xs) after old v = ap (λ r. x ∷ r) (set-append xs after old v)

pub set_if :
    (k : Bool) (n : ℕ) (before after : List (List Float)) (v : List Float)
    → n ≡ length before
    → (if k then set (before ++ [] ∷ after) n v else before ++ [] ∷ after)
      ≡ before ++ (if k then v else []) ∷ after
set_if true n before after v e = rw e (set-append before after [] v)
set_if false n before after v e = refl

pub length-take : (n : ℕ) (xs : List ℕ) → length (take n xs) ≤ n
length-take zero xs = omega arith
length-take (suc n) [] = omega arith
length-take (suc n) (x ∷ xs) = omega (arith, length-take n xs)

pub tokenized-length :
    (b : Backend) (i : ℕ) (r : ℤ × List ℕ) → length (tokenized b i r).tokens ≤ b.n_ctx
unfolding tokenized
tokenized-length b i (negsuc n, buffer) = omega arith
tokenized-length b i (pos n, buffer) = elim (Bool-cases (ltb b.n_ctx n)) [
  | inl h ↦ rw h (omega arith)
  | inr h ↦ rw h (ground (arith, length-take n buffer))
]

pub tokenized-same :
    (b : Backend) (i : ℕ) (r : ℤ × List ℕ)
    → ((tokenized b i r).original_index ≡ i)
      × ((tokenized b i r).ok ≡ (tokenized b 0 r).ok)
      × ((tokenized b i r).tokens ≡ (tokenized b 0 r).tokens)
unfolding tokenized
tokenized-same b i (negsuc n, buffer) = (refl, refl, refl)
tokenized-same b i (pos n, buffer) = elim (Bool-cases (ltb b.n_ctx n)) [
  | inl h ↦ rw h (refl, refl, refl)
  | inr h ↦ rw h (refl, refl, refl)
]

pub flush_results :
    (b : Backend) (c : Chunking)
    → c.chunk ≢ []
    → b.encode (build_batch c.chunk) ≡ true
    → (flush_chunk b c).results
      ≡ store c.chunk (extract_embeddings b (build_batch c.chunk) c.chunk) c.results
unfolding flush_chunk
flush_results b c n e = elim (Bool-cases (is_empty c.chunk)) [
  | inl h ↦ absurd (n (is_empty-nil c.chunk h))
  | inr h ↦ rw (h, e) refl
]

pub extracted_seq :
    (b : Backend) (batch : List Entry) (n : ℕ) (item : TokenizedText) (v : List Float)
    → item.ok ≡ true
    → b.embeddings_seq batch n ≡ some v
    → extracted b batch n item ≡ v
unfolding extracted
extracted_seq b batch n item v k e = rw (k, e) refl
