-- ===== src/Examples/Embedded.antt =====
-- Runs of the embedding provider on a small context.
use pgquarry.Base.{
  ℕ, suc, ◌≡◌, ◌≢◌, ◌∙◌, ap, inl, inr, Bool-cases, refl, String, pos, true, not, some, none, List,
  [], ◌∷◌, arith, if◌then◌else◌, ◌==◌,
}
use pgquarry.Provider.{embed_each}
use pgquarry.Llama.{
  Entry, TokenizedText, Backend, tokenize_batch, run_chunks, embed, embed_batch, is_empty,
}
use pgquarry.Llama.Chunks.{concat}
use pgquarry.Llama.Limits.{run_chunks-kept_items, fitting_items, run_chunks_drops_all}
use pgquarry.Llama.Isolated.{Isolates, entries_of, numbered}
use pgquarry.Llama.Equivalence.{embed_batch-embed}

-- The tokens of one sequence of a batch.
abbrev tokens_in : List Entry → ℕ → List ℕ
tokens_in [] i = []
tokens_in (e ∷ entries) i =
    let rest = tokens_in entries i in if e.seq_id == i then e.token ∷ rest else rest

-- It reads two tokens in every text, and its vectors are the tokens.
abbrev pub backend : Backend
backend = record {
  n_ctx = 4;
  n_seq_max = 2;
  n_batch = 4;
  tokenize = λ size text. (pos 2, 1 ∷ 2 ∷ 0 ∷ 0 ∷ []);
  encode = λ batch. not (is_empty batch);
  embeddings_seq = λ batch i. some (tokens_in batch i);
  embeddings_ith = λ batch i. none;
}

abbrev texts : List String
texts = "a" ∷ "b" ∷ "c" ∷ []

abbrev chunk : List TokenizedText
chunk =
    record { tokens = 1 ∷ 2 ∷ []; original_index = 0; ok = true }
    ∷ record { tokens = 3 ∷ []; original_index = 1; ok = true }
    ∷ []

run_chunks-kept_items_example :
    concat (run_chunks backend texts).encoded ≡ fitting_items backend (tokenize_batch backend texts)
run_chunks-kept_items_example = run_chunks-kept_items backend texts (omega arith)

abbrev vast : Backend
vast = record backend { n_batch = 2147483648 }

run_chunks_drops_all_example : (run_chunks vast texts).encoded ≡ []
run_chunks_drops_all_example = run_chunks_drops_all vast texts (omega arith) (omega arith)

firsts : List (ℕ × ℕ) → List ℕ
firsts [] = []
firsts ((t, p) ∷ ts) = t ∷ firsts ts

firsts-numbered : (p : ℕ) (ts : List ℕ) → firsts (numbered p ts) ≡ ts
unfolding firsts
firsts-numbered p [] = refl
firsts-numbered p (t ∷ ts) = ap (λ xs. t ∷ xs) (firsts-numbered (suc p) ts)

tokens_in-firsts : (i : ℕ) (batch : List Entry) → tokens_in batch i ≡ firsts (entries_of i batch)
unfolding firsts
tokens_in-firsts i [] = refl
tokens_in-firsts i (e ∷ batch) = elim (Bool-cases (e.seq_id == i)) [
  | inl h ↦ rw (h, tokens_in-firsts i batch) refl
  | inr h ↦ rw (h, tokens_in-firsts i batch) refl
]

not_empty : (batch : List Entry) → batch ≢ [] → not (is_empty batch) ≡ true
not_empty [] n = absurd (n refl)
not_empty (e ∷ batch) n = refl

backend-Isolates : Isolates backend (λ tokens. tokens)
backend-Isolates = record {
  encodes = λ batch w. not_empty batch w.filled;
  refuses_empty = refl;
  isolated = λ batch i t ts w e.
      ap some (tokens_in-firsts i batch ∙ ap firsts e ∙ firsts-numbered 0 (t ∷ ts));
  whole_context = omega arith;
  int_batch = omega arith;
}

embed_batch-embed_example : embed_batch backend texts ≡ embed_each (embed backend) texts
embed_batch-embed_example = embed_batch-embed backend (λ tokens. tokens) backend-Isolates texts
