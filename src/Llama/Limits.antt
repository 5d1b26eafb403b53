-- ===== src/Llama/Limits.antt =====
-- The chunks that `embed_batch` gives to `llama_encode`: within the limits of the context, and each
-- text once and in order.
use pgquarry.Base.{
  ℕ, suc, ◌≤◌, ◌<◌, ◌≢◌, ◌^◌, pos, narrow_of_IsInt, narrow_negative, leb, if◌then◌else◌, ◌&&◌,
  String, ◌≡◌, refl, sym, ap, ◌∙◌, not, ◌||◌, List, [], ◌∷◌, ◌++◌, arith, length, length-append,
  All, Bool-cases, inl, inr,
}
use mathlib.Core.List.{append-nil}
use pgquarry.Llama.{
  TokenizedText, Backend, is_empty, sequence, build_from, build_batch, tokenize_batch, add_items,
  run_chunks, max_tokens_per_chunk,
}
use pgquarry.Llama.Chunks.{
  start, total, budget, keeps, is_empty-nil, IsKept, IsLegal, IsWithin, kept_items, concat, seen,
  flush_cases, flush-seen, IsWithin-of_empty, flush-IsWithin, add_items-IsWithin,
}

-- A chunk that is not empty, of texts that the loop keeps.
abbrev IsWithinBudget : Backend → List TokenizedText → Type 0
IsWithinBudget b chunk = (chunk ≢ []) × All (IsKept b) chunk

run_chunks-IsWithin :
    (b : Backend) (texts : List String)
    → IsWithin b (run_chunks b texts)
      × (seen (run_chunks b texts) ≡ kept_items b (tokenize_batch b texts))
unfolding run_chunks
run_chunks-IsWithin b texts =
    let items = tokenize_batch b texts in
    let all =
      add_items-IsWithin b items (start texts) (IsWithin-of_empty b (start texts) refl refl tt) in
    (
      flush-IsWithin b (add_items b items (start texts)) all.0,
      flush-seen b (add_items b items (start texts)) ∙ all.1,
    )

run_chunks-chunk : (b : Backend) (texts : List String) → (run_chunks b texts).chunk ≡ []
unfolding run_chunks
run_chunks-chunk b texts =
    let c = add_items b (tokenize_batch b texts) (start texts) in
    elim (flush_cases b c) [ inl (e, f) ↦ ap (λ d. d.chunk) f ∙ e | inr (n, e, t, p) ↦ e ]

pub run_chunks-IsLegal :
    (b : Backend) (texts : List String) → All (IsLegal b) (run_chunks b texts).encoded
run_chunks-IsLegal b texts = (run_chunks-IsWithin b texts).0.past

encoded-kept_items :
    (b : Backend) (texts : List String)
    → concat (run_chunks b texts).encoded ≡ kept_items b (tokenize_batch b texts)
encoded-kept_items b texts =
    sym (append-nil (concat (run_chunks b texts).encoded))
    ∙ ap (λ x. concat (run_chunks b texts).encoded ++ x) (sym (run_chunks-chunk b texts))
    ∙ (run_chunks-IsWithin b texts).1

-- The texts that were tokenized, are not empty and have at most `n_batch` tokens.
abbrev pub fitting_items : Backend → List TokenizedText → List TokenizedText
fitting_items b [] = []
fitting_items b (item ∷ items) =
    if item.ok && not (is_empty item.tokens) && leb (length item.tokens) b.n_batch
    then item ∷ fitting_items b items
    else fitting_items b items

keeps_int :
    (b : Backend) (item : TokenizedText)
    → b.n_batch < 2 ^ 31
    → keeps b item ≡ (item.ok && not (is_empty item.tokens) && leb (length item.tokens) b.n_batch)
unfolding max_tokens_per_chunk
keeps_int b item h = rw (narrow_of_IsInt (pos b.n_batch) h) (ground arith)

kept_items_int :
    (b : Backend) (items : List TokenizedText)
    → b.n_batch < 2 ^ 31
    → kept_items b items ≡ fitting_items b items
kept_items_int b [] h = refl
kept_items_int b (item ∷ items) h = rw (keeps_int b item h, kept_items_int b items h) refl

-- Where `n_batch` is below 2^30, so that the sums of the loop fit an `int`: the chunks that
-- `embed_batch` gives to `llama_encode`, put together, are the texts that were tokenized, are not
-- empty and have at most `n_batch` tokens: each of them once, in the order in which they came.
pub run_chunks-kept_items :
    (b : Backend) (texts : List String)
    → b.n_batch < 2 ^ 30
    → concat (run_chunks b texts).encoded ≡ fitting_items b (tokenize_batch b texts)
run_chunks-kept_items b texts h =
    encoded-kept_items b texts ∙ kept_items_int b (tokenize_batch b texts) (omega (arith, h))

none_kept :
    (b : Backend) (cs : List (List TokenizedText))
    → budget b ≡ 0
    → All (IsWithinBudget b) cs
    → cs ≡ []
none_kept b [] h l = refl
none_kept b ([] ∷ cs) h ((n, k), l) = absurd (n refl)
none_kept b ((item ∷ items) ∷ cs) h ((n, (k, ks)), l) =
    absurd (no_tokens item.tokens k.filled k.fits)
  where
    no_tokens : (ts : List ℕ) → ts ≢ [] → length ts ≤ budget b → ⊥
    no_tokens [] m f = m refl
    no_tokens (t ∷ ts) m f = omega (arith, f, h)

IsWithinBudget-of_IsLegal :
    (b : Backend) (cs : List (List TokenizedText)) → All (IsLegal b) cs → All (IsWithinBudget b) cs
IsWithinBudget-of_IsLegal b [] l = tt
IsWithinBudget-of_IsLegal b (c ∷ cs) (l, ls) =
    ((l.some_text, l.kept), IsWithinBudget-of_IsLegal b cs ls)

-- Where the context reports an `n_batch` that does not fit an `int`, from 2^31 on, the cast makes it
-- negative: `embed_batch` gives nothing to `llama_encode`, whatever the texts are.
pub run_chunks_drops_all :
    (b : Backend) (texts : List String)
    → 2 ^ 31 ≤ b.n_batch
    → b.n_batch < 2 ^ 32
    → (run_chunks b texts).encoded ≡ []
unfolding max_tokens_per_chunk
run_chunks_drops_all b texts h k =
    none_kept b (run_chunks b texts).encoded (narrow_negative b.n_batch h k)
      (IsWithinBudget-of_IsLegal b (run_chunks b texts).encoded (run_chunks-IsLegal b texts))

length-sequence : (s p : ℕ) (ts : List ℕ) → length (sequence s p ts) ≡ length ts
unfolding sequence
length-sequence s p [] = refl
length-sequence s p (t ∷ ts) = ap suc (length-sequence s (suc p) ts)

length-build_from :
    (b : Backend) (s : ℕ) (items : List TokenizedText)
    → All (IsKept b) items
    → length (build_from s items) ≡ total items
unfolding build_from
length-build_from b s [] k = refl
length-build_from b s (item ∷ items) (k, ks) =
    elim (Bool-cases (not item.ok || is_empty item.tokens)) [
      | inl h ↦ absurd (ground (arith, k.was_ok, k.filled, is_empty-nil item.tokens, h))
      | inr h ↦ rw h (
          length-append (sequence s 0 item.tokens) (build_from (suc s) items)
          ∙ omega (arith, length-sequence s 0 item.tokens, length-build_from b (suc s) items ks))
    ]

pub length-build_batch :
    (b : Backend) (chunk : List TokenizedText)
    → IsLegal b chunk
    → (length (build_batch chunk) ≡ total chunk) × (length (build_batch chunk) ≤ b.n_batch)
unfolding build_batch
length-build_batch b chunk l =
    let e = length-build_from b 0 chunk l.kept in (e, omega (arith, e, l.tokens))
