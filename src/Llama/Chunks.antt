-- ===== src/Llama/Chunks.antt =====
-- The rounds of the loop of `embed_batch`: the chunk that is being filled stays within the limits of
-- the context, and no text is lost, doubled or moved.
use pgquarry.Base.{
  ℕ, ◌+◌, ◌≤◌, String, ◌≡◌, ◌≢◌, ◌⊎◌, refl, sym, ap, ◌∙◌, Bool, true, false, not, ◌&&◌, List, [],
  ◌∷◌, ◌++◌, arith, if◌then◌else◌, length, length-append, replicate, All, All-append, Bool-cases,
  inl, inr, pos, pos_part, narrow_of_IsInt, narrow_le, ltb_ℤ, ◌<◌, ◌^◌, IsInt,
}
use mathlib.Core.List.{append_assoc, append-nil}
use pgquarry.Llama.{
  TokenizedText, Backend, is_empty, Chunking, flush_chunk, max_seq_per_chunk, overflows, push,
  add_item, add_items, max_tokens_per_chunk,
}

abbrev pub total : List TokenizedText → ℕ
total [] = 0
total (item ∷ items) = length item.tokens + total items

total-append : (xs ys : List TokenizedText) → total (xs ++ ys) ≡ total xs + total ys
total-append [] ys = omega arith
total-append (x ∷ xs) ys = omega (arith, total-append xs ys)

pub is_empty-nil {ℓ} : {A : Type ℓ} (xs : List A) → is_empty xs ≡ true → xs ≡ []
is_empty-nil [] h = refl
is_empty-nil (x ∷ xs) h = cc

-- The most tokens of a chunk.
abbrev pub budget : Backend → ℕ
budget b = pos_part (max_tokens_per_chunk b)

pub budget-n_batch : (b : Backend) → budget b ≤ b.n_batch
unfolding max_tokens_per_chunk
budget-n_batch b = narrow_le b.n_batch

pub budget_int : (b : Backend) → b.n_batch < 2 ^ 31 → budget b ≡ b.n_batch
unfolding max_tokens_per_chunk
budget_int b h = rw (narrow_of_IsInt (pos b.n_batch) h) refl

-- A text that was tokenized, is not empty and fits into a batch.
pub record IsKept (b : Backend) (item : TokenizedText) : Type 0 where
  pub was_ok : item.ok ≡ true
  pub filled : item.tokens ≢ []
  pub fits : length item.tokens ≤ budget b

-- A chunk within the limits of the context.
pub record IsLegal (b : Backend) (chunk : List TokenizedText) : Type 0 where
  pub some_text : chunk ≢ []
  pub tokens : total chunk ≤ b.n_batch
  pub sequences : length chunk ≤ max_seq_per_chunk b
  pub kept : All (IsKept b) chunk

-- The state between two rounds.
pub record IsWithin (b : Backend) (c : Chunking) : Type 0 where
  pub counted : c.chunk_tokens ≡ total c.chunk
  pub tokens : total c.chunk ≤ budget b
  pub sequences : length c.chunk ≤ max_seq_per_chunk b
  pub kept : All (IsKept b) c.chunk
  pub past : All (IsLegal b) c.encoded

-- Whether the item is one that the loop does not skip.
abbrev pub keeps : Backend → TokenizedText → Bool
keeps b item =
    item.ok
    && not (is_empty item.tokens)
    && not (ltb_ℤ (max_tokens_per_chunk b) (pos (length item.tokens)))

abbrev pub kept_items : Backend → List TokenizedText → List TokenizedText
kept_items b [] = []
kept_items b (item ∷ items) = if keeps b item then item ∷ kept_items b items else kept_items b items

abbrev pub concat : List (List TokenizedText) → List TokenizedText
concat [] = []
concat (c ∷ cs) = c ++ concat cs

concat-append :
    (xs : List (List TokenizedText)) (c : List TokenizedText)
    → concat (xs ++ c ∷ []) ≡ concat xs ++ c
concat-append [] c = append-nil c
concat-append (x ∷ xs) c = rw (concat-append xs c) (sym (append_assoc x (concat xs) c))

-- All texts that were encoded or wait in the chunk, in order.
abbrev pub seen : Chunking → List TokenizedText
seen c = concat c.encoded ++ c.chunk

pub IsKept_of_keeps : (b : Backend) (item : TokenizedText) → keeps b item ≡ true → IsKept b item
IsKept_of_keeps b item h = ground arith

-- A flush does nothing to an empty chunk, and else leaves an empty chunk and counts it as encoded.
pub flush_cases :
    (b : Backend) (c : Chunking)
    → ((c.chunk ≡ []) × (flush_chunk b c ≡ c))
      ⊎ ((c.chunk ≢ [])
          × ((flush_chunk b c).chunk ≡ [])
          × ((flush_chunk b c).chunk_tokens ≡ 0)
          × ((flush_chunk b c).encoded ≡ c.encoded ++ c.chunk ∷ []))
unfolding flush_chunk
flush_cases b c = ground arith

pub flush-seen : (b : Backend) (c : Chunking) → seen (flush_chunk b c) ≡ seen c
flush-seen b c = elim (flush_cases b c) [
  | inl (e, f) ↦ rw f
  | inr (n, e, t, p) ↦
      rw (e, p) (append-nil (concat (c.encoded ++ c.chunk ∷ [])) ∙ concat-append c.encoded c.chunk)
]

pub IsWithin-of_empty :
    (b : Backend) (c : Chunking)
    → c.chunk ≡ []
    → c.chunk_tokens ≡ 0
    → All (IsLegal b) c.encoded
    → IsWithin b c
unfolding max_seq_per_chunk
IsWithin-of_empty b c e t p = record {
  counted = rw e t;
  tokens = rw e (omega arith);
  sequences = rw e (omega arith);
  kept = rw e tt;
  past = p;
}

pub flush-IsWithin : (b : Backend) (c : Chunking) → IsWithin b c → IsWithin b (flush_chunk b c)
flush-IsWithin b c v = elim (flush_cases b c) [
  | inl (e, f) ↦ rw f v
  | inr (n, e, t, p) ↦ IsWithin-of_empty b (flush_chunk b c) e t (
      rw p (
        All-append (IsLegal b) c.encoded (c.chunk ∷ []) v.past (
          record {
            some_text = n;
            tokens = omega (arith, v.tokens, budget-n_batch b);
            sequences = v.sequences;
            kept = v.kept;
          },
          tt,
        )))
]

push-IsWithin :
    (b : Backend) (item : TokenizedText) (c : Chunking)
    → IsWithin b c
    → IsKept b item
    → total c.chunk + length item.tokens ≤ budget b
    → length c.chunk + 1 ≤ max_seq_per_chunk b
    → IsWithin b (push item c)
push-IsWithin b item c v k t l = record {
  counted = omega (arith, total-append c.chunk (item ∷ []), v.counted);
  tokens = omega (arith, total-append c.chunk (item ∷ []), t);
  sequences = omega (arith, length-append c.chunk (item ∷ []), l);
  kept = All-append (IsKept b) c.chunk (item ∷ []) v.kept (k, tt);
  past = v.past;
}

push-seen : (item : TokenizedText) (c : Chunking) → seen (push item c) ≡ seen c ++ item ∷ []
push-seen item c = sym (append_assoc (concat c.encoded) c.chunk (item ∷ []))

-- The chunk to which an item is added.
abbrev pub roomy : Backend → TokenizedText → Chunking → Chunking
roomy b item c = if overflows b c item then flush_chunk b c else c

-- It has room for the item.
abbrev pub HasRoom : Backend → TokenizedText → Chunking → Type 0
HasRoom b item d =
    (total d.chunk + length item.tokens ≤ budget b) × (length d.chunk + 1 ≤ max_seq_per_chunk b)

empty-HasRoom :
    (b : Backend) (item : TokenizedText) (d : Chunking)
    → d.chunk ≡ []
    → IsKept b item
    → HasRoom b item d
unfolding max_seq_per_chunk
empty-HasRoom b item d e k = (rw e (omega (arith, k.fits)), rw e (omega arith))

flushed-HasRoom :
    (b : Backend) (item : TokenizedText) (c : Chunking)
    → IsKept b item
    → HasRoom b item (flush_chunk b c)
flushed-HasRoom b item c k = elim (flush_cases b c) [
  | inl (e, f) ↦ rw f (empty-HasRoom b item c e k)
  | inr (n, e, t, p) ↦ empty-HasRoom b item (flush_chunk b c) e k
]

unflushed-HasRoom :
    (b : Backend) (item : TokenizedText) (c : Chunking)
    → IsWithin b c
    → IsKept b item
    → overflows b c item ≡ false
    → HasRoom b item c
unfolding overflows
unflushed-HasRoom b item c v k h = elim (Bool-cases (is_empty c.chunk)) [
  | inl e ↦ empty-HasRoom b item c (is_empty-nil c.chunk e) k
  | inr e ↦ (ground (arith, v.counted), ground (arith, v.counted))
]

pub roomy-IsWithin :
    (b : Backend) (item : TokenizedText) (c : Chunking)
    → IsWithin b c
    → IsKept b item
    → IsWithin b (roomy b item c)
      × HasRoom b item (roomy b item c)
      × (seen (roomy b item c) ≡ seen c)
roomy-IsWithin b item c v k = elim (Bool-cases (overflows b c item)) [
  | inl h ↦ rw h (flush-IsWithin b c v, flushed-HasRoom b item c k, flush-seen b c)
  | inr h ↦ rw h (v, unflushed-HasRoom b item c v k h, refl)
]

-- A round: a text that the loop keeps is added, any other one changes nothing.
pub add_item_kept :
    (b : Backend) (item : TokenizedText) (c : Chunking)
    → keeps b item ≡ true
    → add_item b item c ≡ push item (roomy b item c)
unfolding add_item
add_item_kept b item c h = ground arith

pub add_item_skipped :
    (b : Backend) (item : TokenizedText) (c : Chunking)
    → keeps b item ≡ false
    → add_item b item c ≡ c
unfolding add_item
add_item_skipped b item c h = ground arith

added-IsWithin :
    (b : Backend) (item : TokenizedText) (c : Chunking)
    → IsKept b item
    → IsWithin b (roomy b item c)
      × HasRoom b item (roomy b item c)
      × (seen (roomy b item c) ≡ seen c)
    → IsWithin b (push item (roomy b item c))
      × (seen (push item (roomy b item c)) ≡ seen c ++ item ∷ [])
added-IsWithin b item c k (v, (t, l), s) = (
  push-IsWithin b item (roomy b item c) v k t l,
  push-seen item (roomy b item c) ∙ ap (λ x. x ++ item ∷ []) s,
)

pub add_item-IsWithin :
    (b : Backend) (item : TokenizedText) (c : Chunking)
    → IsWithin b c
    → IsWithin b (add_item b item c)
      × (seen (add_item b item c) ≡ seen c ++ kept_items b (item ∷ []))
add_item-IsWithin b item c v = elim (Bool-cases (keeps b item)) [
  | inl h ↦
      rw (add_item_kept b item c h, h)
        (added-IsWithin b item c (IsKept_of_keeps b item h)
          (roomy-IsWithin b item c v (IsKept_of_keeps b item h)))
  | inr h ↦ rw (add_item_skipped b item c h, h) (v, sym (append-nil (seen c)))
]

kept_items-cons :
    (b : Backend) (item : TokenizedText) (items : List TokenizedText)
    → kept_items b (item ∷ items) ≡ kept_items b (item ∷ []) ++ kept_items b items
kept_items-cons b item items = elim (Bool-cases (keeps b item)) [
  | inl h ↦ rw h refl
  | inr h ↦ rw h refl
]

pub add_items-IsWithin :
    (b : Backend) (items : List TokenizedText) (c : Chunking)
    → IsWithin b c
    → IsWithin b (add_items b items c) × (seen (add_items b items c) ≡ seen c ++ kept_items b items)
unfolding add_items
add_items-IsWithin b [] c v = (v, sym (append-nil (seen c)))
add_items-IsWithin b (item ∷ items) c v =
    let one = add_item-IsWithin b item c v in
    let rest = add_items-IsWithin b items (add_item b item c) one.0 in
    (
      rest.0,
      rest.1
          ∙ ap (λ x. x ++ kept_items b items) one.1
          ∙ append_assoc (seen c) (kept_items b (item ∷ [])) (kept_items b items)
          ∙ ap (λ x. seen c ++ x) (sym (kept_items-cons b item items)),
    )

-- The variables before the loop.
abbrev pub start : List String → Chunking
start texts = record {
  chunk = [];
  chunk_tokens = 0;
  results = replicate (length texts) [];
  encoded = [];
}

-- The sum that the loop tests is an `int` where `n_batch` is below 2^30.
pub sum-IsInt :
    (b : Backend) (item : TokenizedText) (c : Chunking)
    → b.n_batch < 2 ^ 30
    → IsWithin b c
    → IsKept b item
    → IsInt (pos (c.chunk_tokens + length item.tokens))
sum-IsInt b item c l v k = omega (arith, l, v.counted, v.tokens, k.fits, budget-n_batch b)
