-- ===== src/Llama/Capacity.antt =====
-- The size of a batch that `LlamaProvider::init` asks for: `n_ctx` for each of `n_seq_max` texts,
-- computed in 32 bits.
use pgquarry.Base.{
  ℕ, ◌*◌, ◌%◌, ◌^◌, ◌≤◌, ◌<◌, pos, ◌≡◌, refl, List, [], ◌∷◌, arith, All, length, narrow,
  narrow_of_IsInt,
}
use native.Mathlib.Nat.{mul-le-mul_left}
use pgquarry.Config.{EmbeddingConfig}
use pgquarry.Llama.{TokenizedText, Backend, Chunking, add_item}
use pgquarry.Llama.Chunks.{total, budget, budget-n_batch, add_item_skipped}
use pgquarry.Llama.Init.{LlamaApi, make_provider, context_params, seq_max}

total-bound :
    (c : ℕ) (items : List TokenizedText)
    → All (λ (item : TokenizedText). length item.tokens ≤ c) items
    → total items ≤ c * length items
total-bound c [] a = omega arith
total-bound c (item ∷ items) (h, a) = omega (arith, h, total-bound c items a)

seq_max_pos : (b : ℕ) → 0 < b → b < 2 ^ 31 → seq_max (pos b) ≡ b
unfolding seq_max
seq_max_pos b h l = ground (arith, h, l)

module _ (api : LlamaApi) (cfg : EmbeddingConfig) (c b : ℕ) (ctx : cfg.n_ctx ≡ pos c)
    (size : cfg.max_batch_size ≡ pos b) (c_int : c < 2 ^ 31) (b_positive : 0 < b)
    (b_int : b < 2 ^ 31) where
  params_n_batch :
      let p = context_params api (make_provider cfg) in
      (p.n_ctx ≡ c) × (p.n_seq_max ≡ b) × (p.n_batch ≡ (c * b) % 2 ^ 32) × (p.n_ubatch ≡ p.n_batch)
  unfolding context_params make_provider
  params_n_batch =
      rw (ctx, size, seq_max_pos b b_positive b_int)
        (let q : c % 2 ^ 32 ≡ c = omega (arith, c_int) in rw q (refl, refl, refl, refl))

  -- For an `n_ctx` and a positive batch size that fit an `int`, and whose product is below 2^31: the
  -- context that `init` asks for takes a batch of as many texts as the batch size, each of at most
  -- `n_ctx` tokens: it has a sequence for each of them and room for all their tokens, which the cast
  -- of `embed_batch` to `int` keeps, and it takes them in one piece.
  pub context_params_suffice :
      c * b < 2 ^ 31
      → (items : List TokenizedText) → length items ≤ b
      → All (λ (item : TokenizedText). length item.tokens ≤ c) items
      → let p = context_params api (make_provider cfg) in
        (length items ≤ p.n_seq_max)
        × (total items ≤ p.n_batch)
        × (narrow (pos p.n_batch) ≡ pos p.n_batch)
        × (p.n_ubatch ≡ p.n_batch)
  context_params_suffice h items l a =
      let (e, f, g, u) = params_n_batch in
      (
        omega (arith, l, f),
        omega (arith, g, h, total-bound c items a, mul-le-mul_left c l),
        narrow_of_IsInt (pos (context_params api (make_provider cfg)).n_batch)
            (omega (arith, g, h)),
        u,
      )

  -- From 2^32 on the product wraps: where what is left of it is less than `n_ctx`, both fitting an
  -- `int` and the batch size being positive, a text of `n_ctx` tokens, which the tokenizer accepts, is
  -- left out by any context with at most the batch size that `init` asks for.
  pub context_params_wrap :
      c * b % 2 ^ 32 < c
      → (backend : Backend) → backend.n_batch ≤ (context_params api (make_provider cfg)).n_batch
      → (item : TokenizedText) → length item.tokens ≡ c
      → (chunking : Chunking) → add_item backend item chunking ≡ chunking
  context_params_wrap h backend e item k chunking =
      let (_, _, g, _) = params_n_batch in
      let small : budget backend < length item.tokens =
        omega (arith, h, e, k, g, budget-n_batch backend) in
      add_item_skipped backend item chunking (ground (arith, small))
