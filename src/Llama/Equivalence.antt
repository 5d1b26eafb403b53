-- ===== src/Llama/Equivalence.antt =====
-- `embed_batch` against `embed`: the vectors of many texts are those of the texts one by one, where
-- the model keeps the sequences of a batch apart.
use pgquarry.Base.{
  ℕ, suc, String, ◌≡◌, ◌≢◌, some, refl, sym, ap, subst, ◌∙◌, true, false, List, [], ◌∷◌, ◌++◌, map,
  arith, if◌then◌else◌, length, replicate, length-append, All, Bool-cases, inl, inr,
}
use mathlib.Core.List.{append_assoc}
use pgquarry.Provider.{embed_each, embed_each-map}
use pgquarry.Store.Literal.{Float}
use pgquarry.Llama.{
  TokenizedText, Backend, set, is_empty, build_from, build_batch, tokenized, overflows,
  tokenize_from, tokenize_batch, extract_from, extract_embeddings, embed, Chunking, store,
  flush_chunk, add_item, add_items, run_chunks, embed_batch, max_seq_per_chunk,
}
use pgquarry.Llama.Chunks.{
  start, IsKept, IsLegal, IsWithin, keeps, IsKept_of_keeps, roomy, flush_cases, IsWithin-of_empty,
  budget-n_batch, budget_int, add_item_kept, add_item_skipped, add_item-IsWithin,
  add_items-IsWithin,
}
use pgquarry.Llama.Isolated.{
  Isolates, entries_of, numbered, store-append, set_if, tokenized-length, tokenized-same,
  flush_results, extracted_seq,
}
use pgquarry.Llama.Placed.{build_batch-IsWellFormed, build_batch-own}

module _ (b : Backend) (vector_of : List ℕ → List Float) (p : Isolates b vector_of) where
  abbrev vec : TokenizedText → List Float
  vec item = vector_of item.tokens

  isolated_item :
      (before : List TokenizedText) (item : TokenizedText) (after : List TokenizedText)
      → item.tokens ≢ []
      → IsLegal b (before ++ item ∷ after)
      → b.embeddings_seq (build_batch (before ++ item ∷ after)) (length before) ≡ some (vec item)
  isolated_item before item after n l =
      of_tokens item.tokens n (build_batch-own b before item after l)
    where
      of_tokens :
          (ts : List ℕ)
          → ts ≢ []
          → entries_of (length before) (build_batch (before ++ item ∷ after)) ≡ numbered 0 ts
          → b.embeddings_seq (build_batch (before ++ item ∷ after)) (length before)
            ≡ some (vector_of ts)
      of_tokens [] m e = absurd (m refl)
      of_tokens (t ∷ ts) m e = p.isolated _ (length before) t ts (build_batch-IsWellFormed b _ l) e

  extract-vec :
      (chunk before items : List TokenizedText) (n : ℕ)
      → n ≡ length before
      → chunk ≡ before ++ items
      → IsLegal b chunk
      → All (IsKept b) items
      → extract_from b (build_batch chunk) n items ≡ map vec items
  unfolding extract_from
  extract-vec chunk before [] n en ec l k = refl
  extract-vec chunk before (item ∷ items) n en ec l (k, ks) =
      ap (λ v. v ∷ extract_from b (build_batch chunk) (suc n) items)
        (extracted_seq b (build_batch chunk) n item (vec item) k.was_ok
          (rw (en, ec) (isolated_item before item items k.filled (subst (IsLegal b) ec l))))
      ∙ ap (λ vs. vec item ∷ vs)
          (extract-vec chunk (before ++ item ∷ []) items (suc n)
            (omega (arith, en, length-append before (item ∷ [])))
            (ec ∙ sym (append_assoc before (item ∷ []) items)) l ks)

  -- The results as they are when the chunk has been flushed.
  abbrev settled : Chunking → List (List Float)
  settled c = store c.chunk (map vec c.chunk) c.results

  flush_results-settled : (c : Chunking) → IsWithin b c → (flush_chunk b c).results ≡ settled c
  unfolding extract_embeddings store
  flush_results-settled c v = elim (flush_cases b c) [
    | inl (e, f) ↦ rw (f, e) refl
    | inr (n, e, t, q) ↦
        let l : IsLegal b c.chunk = record {
          some_text = n;
          tokens = omega (arith, v.tokens, budget-n_batch b);
          sequences = v.sequences;
          kept = v.kept;
        } in
        flush_results b c n (p.encodes (build_batch c.chunk) (build_batch-IsWellFormed b c.chunk l))
        ∙ ap (λ vs. store c.chunk vs c.results)
            (extract-vec c.chunk [] c.chunk 0 refl refl l v.kept)
  ]

  settled-flush : (c : Chunking) → IsWithin b c → settled (flush_chunk b c) ≡ settled c
  unfolding store
  settled-flush c v = elim (flush_cases b c) [
    | inl (e, f) ↦ ap settled f
    | inr (n, e, t, q) ↦ rw e (flush_results-settled c v)
  ]

  settled-roomy :
      (item : TokenizedText) (c : Chunking) → IsWithin b c → settled (roomy b item c) ≡ settled c
  settled-roomy item c v = elim (Bool-cases (overflows b c item)) [
    | inl h ↦ rw h (settled-flush c v)
    | inr h ↦ rw h refl
  ]

  -- The write of an item's vector where the loop keeps the item.
  abbrev placed : TokenizedText → List (List Float) → List (List Float)
  placed item r = if keeps b item then set r item.original_index (vec item) else r

  settled-add_item :
      (item : TokenizedText) (c : Chunking)
      → IsWithin b c
      → settled (add_item b item c) ≡ placed item (settled c)
  settled-add_item item c v = elim (Bool-cases (keeps b item)) [
    | inl h ↦
        rw (add_item_kept b item c h, h)
          (store-append (roomy b item c).chunk item vec (roomy b item c).results
            ∙ ap (λ r. set r item.original_index (vec item)) (settled-roomy item c v))
    | inr h ↦ rw (add_item_skipped b item c h, h) refl
  ]

  all_placed : List TokenizedText → List (List Float) → List (List Float)
  all_placed [] r = r
  all_placed (item ∷ items) r = all_placed items (placed item r)

  settled-add_items :
      (items : List TokenizedText) (c : Chunking)
      → IsWithin b c
      → settled (add_items b items c) ≡ all_placed items (settled c)
  unfolding add_items all_placed
  settled-add_items [] c v = refl
  settled-add_items (item ∷ items) c v =
      settled-add_items items (add_item b item c) (add_item-IsWithin b item c v).0
      ∙ ap (λ r. all_placed items r) (settled-add_item item c v)

  singleton-IsLegal : (item : TokenizedText) → IsKept b item → IsLegal b (item ∷ [])
  unfolding max_seq_per_chunk
  singleton-IsLegal item k = record {
    some_text = λ e. cc;
    tokens = omega (arith, k.fits, budget-n_batch b);
    sequences = omega arith;
    kept = (k, tt);
  }

  -- The text by itself, as `embed` tokenizes it.
  abbrev alone : String → TokenizedText
  alone text = tokenized b 0 (b.tokenize b.n_ctx text)

  embed_encoded :
      (text : String) (v : List Float)
      → (alone text).ok ≡ true
      → b.encode (build_batch (alone text ∷ [])) ≡ true
      → extract_embeddings b (build_batch (alone text ∷ [])) (alone text ∷ []) ≡ v ∷ []
      → embed b text ≡ v
  unfolding embed
  embed_encoded text v k e x = rw (x, e, k) refl

  embed_kept : (text : String) → keeps b (alone text) ≡ true → embed b text ≡ vec (alone text)
  unfolding extract_embeddings
  embed_kept text h =
      let k = IsKept_of_keeps b (alone text) h in
      let l = singleton-IsLegal (alone text) k in
      embed_encoded text (vec (alone text)) k.was_ok
        (p.encodes (build_batch (alone text ∷ [])) (build_batch-IsWellFormed b (alone text ∷ []) l))
        (extract-vec (alone text ∷ []) [] (alone text ∷ []) 0 refl refl l (k, tt))

  build_batch_empty :
      (item : TokenizedText) → is_empty item.tokens ≡ true → build_batch (item ∷ []) ≡ []
  unfolding build_batch build_from
  build_batch_empty item h = ground arith

  alone_empty :
      (text : String)
      → keeps b (alone text) ≡ false
      → (alone text).ok ≡ true
      → is_empty (alone text).tokens ≡ true
  alone_empty text h k = ground (
    arith,
    tokenized-length b 0 (b.tokenize b.n_ctx text),
    p.whole_context,
    budget_int b (omega (arith, p.int_batch)),
  )

  embed_dropped : (text : String) → keeps b (alone text) ≡ false → embed b text ≡ []
  unfolding embed
  embed_dropped text h = elim (Bool-cases (alone text).ok) [
    | inl k ↦ rw (build_batch_empty (alone text) (alone_empty text h k), p.refuses_empty, k) refl
    | inr k ↦ rw k refl
  ]

  embed-keeps :
      (text : String) → embed b text ≡ (if keeps b (alone text) then vec (alone text) else [])
  embed-keeps text = elim (Bool-cases (keeps b (alone text))) [
    | inl h ↦ rw h (embed_kept text h)
    | inr h ↦ rw h (embed_dropped text h)
  ]

  -- A round over the text, with the results before it and no result yet for it and for those after it.
  placed-tokenized :
      (text : String) (n : ℕ) (before after : List (List Float))
      → n ≡ length before
      → placed (tokenized b n (b.tokenize b.n_ctx text)) (before ++ [] ∷ after)
        ≡ before ++ embed b text ∷ after
  placed-tokenized text n before after en =
      let (ei, ek, et) = tokenized-same b n (b.tokenize b.n_ctx text) in
      rw (ei, ek, et, embed-keeps text)
        (set_if (keeps b (alone text)) n before after (vec (alone text)) en)

  all_placed-tokenize :
      (texts : List String) (n : ℕ) (before : List (List Float))
      → n ≡ length before
      → all_placed (tokenize_from b n texts) (before ++ replicate (length texts) [])
        ≡ before ++ map (embed b) texts
  unfolding all_placed tokenize_from
  all_placed-tokenize [] n before en = refl
  all_placed-tokenize (text ∷ texts) n before en =
      let after = replicate (length texts) [] in
      ap (λ r. all_placed (tokenize_from b (suc n) texts) r)
        (placed-tokenized text n before after en)
      ∙ ap (λ r. all_placed (tokenize_from b (suc n) texts) r)
          (sym (append_assoc before (embed b text ∷ []) after))
      ∙ all_placed-tokenize texts (suc n) (before ++ embed b text ∷ [])
          (omega (arith, en, length-append before (embed b text ∷ [])))
      ∙ append_assoc before (embed b text ∷ []) (map (embed b) texts)

  run_chunks_results : (texts : List String) → (run_chunks b texts).results ≡ map (embed b) texts
  unfolding run_chunks tokenize_batch store
  run_chunks_results texts =
      let v = IsWithin-of_empty b (start texts) refl refl tt in
      let all = add_items-IsWithin b (tokenize_batch b texts) (start texts) v in
      flush_results-settled (add_items b (tokenize_batch b texts) (start texts)) all.0
      ∙ settled-add_items (tokenize_batch b texts) (start texts) v
      ∙ all_placed-tokenize texts 0 [] refl

  -- Where the model keeps the sequences of a batch apart as long as each is at the positions from 0
  -- on, encodes every such batch within its limits and refuses an empty one, and a batch can be as
  -- long as the context and `n_batch` is below 2^30, so that the sums of the loop fit an `int`,
  -- `embed_batch` returns what the `embed_batch` that it overrides would: for each text, in order,
  -- what `embed` returns for it.
  pub embed_batch-embed : (texts : List String) → embed_batch b texts ≡ embed_each (embed b) texts
  unfolding embed_batch
  embed_batch-embed [] = sym (embed_each-map (embed b) [])
  embed_batch-embed (text ∷ texts) =
      run_chunks_results (text ∷ texts) ∙ sym (embed_each-map (embed b) (text ∷ texts))
