-- ===== src/Generate.antt =====
-- src/llama_generation_provider.cpp: a prompt into text. llama.cpp is a parameter: the chat template,
-- the tokenizer, the memory of the context, whether `llama_decode` succeeds, the token sampled and its
-- text. A `std::string` is the list of its bytes, and tokens are numbers.
pub mod Init
pub mod Loop
pub mod Preflight
use pgquarry.Base.{
  ℕ, zero, suc, ◌+◌, ◌*◌, ℤ, pos, negsuc, Bool, true, false, not, List, [], ◌∷◌, ◌++◌, ltb,
  if◌then◌else◌, length, Result, ok, err, is_int, not, ltb_ℤ,
}
use pgquarry.Llama.{take}

pub record Context : Type 0 where
  -- `n_ctx_`
  pub n_ctx : ℕ
  -- `llama_chat_apply_template` into a buffer of the given size: the number returned, and the buffer
  pub apply_template : List ℕ → ℕ → ℤ × List ℕ
  -- `llama_tokenize` into no buffer, and into one of the given size
  pub count_tokens : List ℕ → ℤ
  pub tokenize : List ℕ → ℕ → ℤ × List ℕ
  -- `llama_memory_seq_pos_max` plus one, after the batches decoded so far
  pub n_ctx_used : List (List ℕ) → ℕ
  -- whether `llama_decode` returns 0 for the last of the batches
  pub decode : List (List ℕ) → Bool
  -- `llama_sampler_sample` after them
  pub sample : List (List ℕ) → ℕ
  pub is_eog : ℕ → Bool
  -- `llama_token_to_piece` into 256 bytes: the number returned, and the buffer
  pub to_piece : ℕ → ℤ × List ℕ

-- What `generate` throws.
pub data Failure : Type 0 where
  template_failed negative_size tokenize_failed exceeds_n_ctx context_exceeded decode_failed
        piece_failed :
      Failure

-- How a call ends.
pub data Outcome : Type 0 where
  response : List ℕ → Outcome
  thrown : Failure → Outcome
  -- a sum of `int`s overflows, which C++ leaves undefined
  undefined : Outcome

abbrev pub add_ℤ : ℕ → ℤ → ℤ
add_ℤ n (pos k) = pos (n + k)
add_ℤ zero (negsuc k) = negsuc k
add_ℤ (suc n) (negsuc zero) = pos n
add_ℤ (suc n) (negsuc (suc k)) = add_ℤ n (negsuc k)

-- The rounds that the loop may run.
abbrev pub rounds : ℤ → ℕ
rounds (pos n) = n
rounds (negsuc n) = zero

module _ (c : Context) where
  -- The text of a token appended, where the conversion succeeded.
  abbrev pub piece : ℤ × List ℕ → List ℕ
  piece (pos n, buffer) = take n buffer
  piece (negsuc n, buffer) = []

  abbrev pub failed : ℤ × List ℕ → Bool
  failed (pos n, buffer) = false
  failed (negsuc n, buffer) = true

  -- The loop, with the rounds left, the batches decoded, the next batch and the text so far.
  unfoldable pub generate_from : ℕ → List (List ℕ) → List ℕ → List ℕ → Outcome
  generate_from zero decoded batch text = response text
  generate_from (suc n) decoded batch text =
      let decoded' = decoded ++ batch ∷ [] in
      let new_token = c.sample decoded' in
      let next = generate_from n decoded' (new_token ∷ []) (text ++ piece (c.to_piece new_token)) in
      if ltb c.n_ctx (c.n_ctx_used decoded + length batch)
      then thrown context_exceeded
      else if not (c.decode decoded')
      then thrown decode_failed
      else if c.is_eog new_token
      then response text
      else if failed (c.to_piece new_token)
      then thrown piece_failed
      else next

  -- The check before the loop, and the loop.
  unfoldable pub generate_tokens : List ℕ → ℤ → Outcome
  generate_tokens prompt_tokens max_tokens =
      let sum = add_ℤ (length prompt_tokens) max_tokens in
      if not (is_int sum)
      then undefined
      else if ltb_ℤ (pos c.n_ctx) sum
      then thrown exceeds_n_ctx
      else generate_from (rounds max_tokens) [] prompt_tokens []

  -- The second call of `llama_tokenize`, into a buffer of `n_prompt_tokens`.
  unfoldable pub tokenize_into : List ℕ → ℕ → ℤ → Outcome
  tokenize_into templated n_prompt_tokens max_tokens =
      let r = c.tokenize templated n_prompt_tokens in
      if failed r
      then thrown tokenize_failed
      else generate_tokens (take n_prompt_tokens r.1) max_tokens

  -- `n_prompt_tokens` is the number returned, negated; no vector has a negative size.
  unfoldable pub tokenize_prompt : List ℕ → ℤ → ℤ → Outcome
  tokenize_prompt templated (negsuc n) max_tokens = tokenize_into templated (suc n) max_tokens
  tokenize_prompt templated (pos zero) max_tokens = tokenize_into templated zero max_tokens
  tokenize_prompt templated (pos (suc n)) max_tokens = thrown negative_size

  -- A second call, into a larger buffer, where the first one did not suffice.
  unfoldable pub templated_prompt : List ℕ → ℕ → ℤ × List ℕ → ℤ × List ℕ
  templated_prompt prompt size (negsuc n, formatted) = (negsuc n, formatted)
  templated_prompt prompt size (pos n, formatted) =
      if ltb size n then c.apply_template prompt n else (pos n, formatted)

  unfoldable pub generate_templated : ℤ × List ℕ → ℤ → Outcome
  generate_templated (negsuc n, formatted) max_tokens = thrown template_failed
  generate_templated (pos n, formatted) max_tokens =
      tokenize_prompt (take n formatted) (c.count_tokens (take n formatted)) max_tokens

  unfoldable pub generate : List ℕ → ℤ → Outcome
  generate prompt max_tokens =
      let size = length prompt * 2 + 256 in
      generate_templated (templated_prompt prompt size (c.apply_template prompt size)) max_tokens
