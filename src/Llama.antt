-- ===== src/Llama.antt =====
-- src/llama_provider.cpp: texts into vectors, many at a time. llama.cpp is a parameter: its tokenizer,
-- the limits of the context, whether `llama_encode` succeeds for a batch, and the vectors that it
-- gives afterwards. Tokens and floats are numbers.
pub mod Init
pub mod Capacity
pub mod Chunks
pub mod Limits
pub mod Isolated
pub mod Placed
pub mod Equivalence
use Prim.Native.Nat.{max}
use pgquarry.Base.{
  ℕ, zero, suc, ◌+◌, String, ℤ, pos, negsuc, narrow, pos_part, ltb_ℤ, Bool, true, false, not, ◌&&◌,
  ◌||◌, Option, none, some, List, [], ◌∷◌, ◌++◌, ltb, leb, ◌==◌, if◌then◌else◌, length, replicate,
}
use pgquarry.Store.Literal.{Float}

-- An entry of a `llama_batch`: a token, its position within its sequence, and the sequence.
pub record Entry : Type 0 where
  pub token : ℕ
  pub position : ℕ
  pub seq_id : ℕ

-- `LlamaTokenizedText`.
pub record TokenizedText : Type 0 where
  pub tokens : List ℕ
  pub original_index : ℕ
  pub ok : Bool

pub record Backend : Type 0 where
  -- `n_ctx_`, as it is configured
  pub n_ctx : ℕ
  -- what `llama_n_seq_max` and `llama_n_batch` report
  pub n_seq_max : ℕ
  pub n_batch : ℕ
  -- `llama_tokenize` into a buffer of the given size: the number returned, and the buffer
  pub tokenize : ℕ → String → ℤ × List ℕ
  -- whether `llama_encode` returns 0
  pub encode : List Entry → Bool
  -- the vectors of `llama_get_embeddings_seq` and `llama_get_embeddings_ith` after that
  pub embeddings_seq : List Entry → ℕ → Option (List Float)
  pub embeddings_ith : List Entry → ℕ → Option (List Float)

abbrev pub take : ℕ → List ℕ → List ℕ
take zero xs = []
take (suc n) [] = []
take (suc n) (x ∷ xs) = x ∷ take n xs

-- A write out of bounds changes nothing.
abbrev pub set : List (List Float) → ℕ → List Float → List (List Float)
set [] i v = []
set (x ∷ xs) zero v = v ∷ xs
set (x ∷ xs) (suc i) v = x ∷ set xs i v

-- The entries of one sequence, from a position on.
unfoldable pub sequence : ℕ → ℕ → List ℕ → List Entry
sequence seq_id position [] = []
sequence seq_id position (t ∷ ts) =
    record { token = t; position = position; seq_id = seq_id } ∷ sequence seq_id (suc position) ts

abbrev pub is_empty {ℓ} : {A : Type ℓ} → List A → Bool
is_empty [] = true
is_empty (x ∷ xs) = false

-- The loop of `build_batch`, from a sequence on.
unfoldable pub build_from : ℕ → List TokenizedText → List Entry
build_from seq_id [] = []
build_from seq_id (item ∷ items) =
    let rest = build_from (suc seq_id) items in
    if not item.ok || is_empty item.tokens then rest else sequence seq_id 0 item.tokens ++ rest

unfoldable pub build_batch : List TokenizedText → List Entry
build_batch tokenized = build_from 0 tokenized

-- The search for the last token of a sequence of `len` tokens: the index of the first entry of the
-- sequence whose position is `len - 1`.
unfoldable pub last_token_from : ℕ → ℕ → ℕ → List Entry → Option ℕ
last_token_from i seq_id len [] = none
last_token_from i seq_id len (e ∷ entries) =
    if e.seq_id == seq_id && e.position + 1 == len
    then some i
    else last_token_from (suc i) seq_id len entries

module _ (b : Backend) where
  -- A round of `tokenize_batch`.
  unfoldable pub tokenized : ℕ → ℤ × List ℕ → TokenizedText
  tokenized i (negsuc n, buffer) = record { tokens = []; original_index = i; ok = false }
  tokenized i (pos n, buffer) =
      if ltb b.n_ctx n
      then record { tokens = []; original_index = i; ok = false }
      else record { tokens = take n buffer; original_index = i; ok = true }

  unfoldable pub tokenize_from : ℕ → List String → List TokenizedText
  tokenize_from i [] = []
  tokenize_from i (text ∷ texts) =
      tokenized i (b.tokenize b.n_ctx text) ∷ tokenize_from (suc i) texts

  unfoldable pub tokenize_batch : List String → List TokenizedText
  tokenize_batch texts = tokenize_from 0 texts

  -- `llama_get_embeddings_ith`, where the search has found an entry.
  abbrev pub ith : List Entry → Option ℕ → Option (List Float)
  ith batch none = none
  ith batch (some i) = b.embeddings_ith batch i

  abbrev pub or_else : Option (List Float) → Option (List Float) → List Float
  or_else (some v) fallback = v
  or_else none (some v) = v
  or_else none none = []

  -- A round of `extract_embeddings`.
  unfoldable pub extracted : List Entry → ℕ → TokenizedText → List Float
  extracted batch seq_id item =
      if not item.ok
      then []
      else or_else (b.embeddings_seq batch seq_id)
          (ith batch (last_token_from 0 seq_id (length item.tokens) batch))

  unfoldable pub extract_from : List Entry → ℕ → List TokenizedText → List (List Float)
  extract_from batch seq_id [] = []
  extract_from batch seq_id (item ∷ items) =
      extracted batch seq_id item ∷ extract_from batch (suc seq_id) items

  unfoldable pub extract_embeddings : List Entry → List TokenizedText → List (List Float)
  extract_embeddings batch items = extract_from batch 0 items

  -- `results[0]`, or nothing.
  abbrev pub first : List (List Float) → List Float
  first [] = []
  first (v ∷ vs) = v

  unfoldable pub embed : String → List Float
  embed text =
      let item = tokenized 0 (b.tokenize b.n_ctx text) in
      let batch = build_batch (item ∷ []) in
      if not item.ok
      then []
      else if not (b.encode batch)
      then []
      else first (extract_embeddings batch (item ∷ []))

-- The variables of `embed_batch`; `encoded` lists the chunks given to `llama_encode`.
pub record Chunking : Type 0 where
  pub chunk : List TokenizedText
  pub chunk_tokens : ℕ
  pub results : List (List Float)
  pub encoded : List (List TokenizedText)

-- `results[chunk[i].original_index] = chunk_results[i]`.
unfoldable pub store :
    List TokenizedText → List (List Float) → List (List Float) → List (List Float)
store [] vectors results = results
store (item ∷ items) [] results = results
store (item ∷ items) (v ∷ vectors) results = store items vectors (set results item.original_index v)

abbrev pub push : TokenizedText → Chunking → Chunking
push item c = record c {
  chunk = c.chunk ++ item ∷ [];
  chunk_tokens = c.chunk_tokens + length item.tokens;
}

module _ (b : Backend) where
  abbrev flushed : Chunking → List (List Float) → Chunking
  flushed c results = record {
    chunk = [];
    chunk_tokens = 0;
    results = results;
    encoded = c.encoded ++ c.chunk ∷ [];
  }

  unfoldable pub flush_chunk : Chunking → Chunking
  flush_chunk c =
      let batch = build_batch c.chunk in
      if is_empty c.chunk
      then c
      else if not (b.encode batch)
      then flushed c c.results
      else flushed c (store c.chunk (extract_embeddings b batch c.chunk) c.results)

  -- The limits of the context, as the `int`s that they are cast to.
  unfoldable pub max_seq_per_chunk : ℕ
  max_seq_per_chunk = max 1 (pos_part (narrow (pos b.n_seq_max)))

  unfoldable pub max_tokens_per_chunk : ℤ
  max_tokens_per_chunk = narrow (pos b.n_batch)

  -- The item would overflow the chunk. The sum is exact here; in the code it is an `int`, and
  -- it takes an `n_batch` of 2^30 or more to make it overflow, which C++ leaves undefined.
  unfoldable pub overflows : Chunking → TokenizedText → Bool
  unfolding max_seq_per_chunk
  overflows c item =
      not (is_empty c.chunk)
      && (ltb_ℤ max_tokens_per_chunk (pos (c.chunk_tokens + length item.tokens))
          || leb max_seq_per_chunk (length c.chunk))

  -- A round of the loop of `embed_batch`.
  unfoldable pub add_item : TokenizedText → Chunking → Chunking
  add_item item c =
      if not item.ok || is_empty item.tokens
      then c
      else if ltb_ℤ max_tokens_per_chunk (pos (length item.tokens))
      then c
      else push item (if overflows c item then flush_chunk c else c)

  unfoldable pub add_items : List TokenizedText → Chunking → Chunking
  add_items [] c = c
  add_items (item ∷ items) c = add_items items (add_item item c)

  -- The loop and the flush after it.
  unfoldable pub run_chunks : List String → Chunking
  run_chunks texts = flush_chunk (
      add_items (tokenize_batch b texts) (record {
        chunk = [];
        chunk_tokens = 0;
        results = replicate (length texts) [];
        encoded = [];
      }))

  unfoldable pub embed_batch : List String → List (List Float)
  unfolding run_chunks
  embed_batch [] = []
  embed_batch (text ∷ texts) = (run_chunks (text ∷ texts)).results
