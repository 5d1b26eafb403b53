-- ===== src/Llama/Init.antt =====
-- The life of a `LlamaProvider`: its members, `init`, and its end. llama.cpp is a parameter: the
-- models and contexts are handles.
use Prim.Native.String.{◌++◌ as ◌++ₛ◌}
use pgquarry.Base.{
  ℕ, ◌*◌, ◌%◌, ◌^◌, String, ℤ, pos, ◌≡◌, inl, inr, refl, Bool, true, not, ◌&&◌, Option, none, some,
  List, [], ◌∷◌, ◌++◌, Result, ok, err, if◌then◌else◌, low_word, ltb_ℤ, Option-cases,
}
use pgquarry.Config.{EmbeddingConfig}
use pgquarry.Store.Effects.{returned}
use pgquarry.Lifetime.{
  Call, load_model, free_model, make_context, free_context, Encloses, freed, IsLife, no_model,
  given_up, held, IsLife-Encloses,
}

-- The members of `llama_context_params` that the providers set.
pub record ContextParams : Type 0 where
  pub n_ctx : ℕ
  pub n_batch : ℕ
  pub n_ubatch : ℕ
  pub n_seq_max : ℕ
  pub n_threads : ℕ
  pub n_threads_batch : ℕ
  pub embeddings : Bool

pub record LlamaApi : Type 0 where
  -- `llama_supports_gpu_offload`
  pub supports_gpu : Bool
  -- `llama_model_load_from_file` for a path and a number of GPU layers
  pub load_from_file : String → ℤ → Option ℕ
  pub get_vocab : ℕ → ℕ
  -- `llama_model_n_embd`, for the pointer to the model
  pub n_embd : Option ℕ → ℤ
  -- `llama_model_chat_template` for the default template
  pub chat_template : ℕ → Option String
  -- `llama_context_default_params`
  pub default_params : ContextParams
  -- `llama_init_from_model`
  pub init_from_model : ℕ → ContextParams → Option ℕ

pub record LlamaProvider : Type 0 where
  pub model_path : String
  pub n_threads : ℤ
  pub n_ctx : ℤ
  pub n_batch : ℤ
  pub n_gpu_layers : ℤ
  pub model_handle : Option ℕ
  pub ctx_handle : Option ℕ
  pub vocab : Option ℕ

unfoldable pub make_provider : EmbeddingConfig → LlamaProvider
make_provider cfg = record {
  model_path = cfg.model_path;
  n_threads = cfg.n_threads;
  n_ctx = cfg.n_ctx;
  n_batch = cfg.max_batch_size;
  n_gpu_layers = cfg.n_gpu_layers;
  model_handle = none;
  ctx_handle = none;
  vocab = none;
}

-- The destructor, as the calls that it makes.
unfoldable pub destroy : LlamaProvider → List Call
destroy p = freed free_context p.ctx_handle ++ freed free_model p.model_handle

-- `static_cast<uint32_t>(std::max(1, n_batch_))`.
unfoldable pub seq_max : ℤ → ℕ
seq_max n_batch = low_word (if ltb_ℤ (pos 1) n_batch then n_batch else pos 1)

unfoldable pub context_params : LlamaApi → LlamaProvider → ContextParams
context_params api p =
    let n_batch = (low_word p.n_ctx * seq_max p.n_batch) % 2 ^ 32 in
    record api.default_params {
      n_ctx = low_word p.n_ctx;
      n_batch = n_batch;
      n_ubatch = n_batch;
      n_seq_max = seq_max p.n_batch;
      n_threads = low_word p.n_threads;
      n_threads_batch = low_word p.n_threads;
      embeddings = true;
    }

-- The layers asked for, or none without a GPU.
unfoldable pub gpu_layers : LlamaApi → ℤ → ℤ
gpu_layers api n = if ltb_ℤ (pos 0) n && not api.supports_gpu then pos 0 else n

-- What `init` returns or throws, the provider after it, and the calls.
abbrev pub Ran : Type 0 → Type 0
Ran P = Result (Unit {0}) × P × List Call

-- `init` from `llama_init_from_model` on.
unfoldable pub with_context : LlamaApi → ℕ → LlamaProvider → Ran LlamaProvider
with_context api m p = elim (api.init_from_model m (context_params api p)) [
  | none ↦ (
    err "LlamaProvider: failed to create llama context",
    record p { model_handle = none; ctx_handle = none },
    load_model m ∷ free_model m ∷ [],
  )
  | some c ↦ (ok tt, record p { ctx_handle = some c }, load_model m ∷ make_context c ∷ [])
]

unfoldable pub init : LlamaApi → LlamaProvider → Ran LlamaProvider
init api p = elim (api.load_from_file p.model_path (gpu_layers api p.n_gpu_layers)) [
  | none ↦ (
    err (
        "LlamaProvider: failed to load model from '"
        ++ₛ (p.model_path ++ₛ "' — check that the path exists and is a valid GGUF file")),
    record p { model_handle = none },
    [],
  )
  | some m ↦ with_context api m (record p { model_handle = some m; vocab = some (api.get_vocab m) })
]

unfoldable pub dimensions : LlamaApi → LlamaProvider → ℤ
dimensions api p = api.n_embd p.model_handle

unfoldable pub name : LlamaProvider → String
name p = "llama[" ++ₛ (p.model_path ++ₛ "]")

-- The provider made of a configuration, after `init`.
abbrev pub init_made : LlamaApi → EmbeddingConfig → Ran LlamaProvider
init_made api cfg = init api (make_provider cfg)

with_context-IsLife :
    (api : LlamaApi) (m : ℕ) (p : LlamaProvider)
    → p.model_handle ≡ some m
    → let run = with_context api m p in
      IsLife (returned run.0) run.1.model_handle run.1.ctx_handle run.2
unfolding with_context
with_context-IsLife api m p h = elim (Option-cases (api.init_from_model m (context_params api p))) [
  | inl e ↦ rw (with_context, e) (given_up m)
  | inr (c, e) ↦ rw (with_context, e, h) (held m c)
]

-- Where `init` of the embedding provider throws it holds neither a model nor a context, and where it
-- returns it holds both.
init-IsLife :
    (api : LlamaApi) (cfg : EmbeddingConfig)
    → let run = init_made api cfg in
      IsLife (returned run.0) run.1.model_handle run.1.ctx_handle run.2
unfolding init make_provider
init-IsLife api cfg =
    elim (Option-cases (api.load_from_file cfg.model_path (gpu_layers api cfg.n_gpu_layers))) [
      | inl e ↦ rw (init, e) no_model
      | inr (m, e) ↦ rw (init, e) (with_context-IsLife api m _ refl)
    ]

-- Whatever llama.cpp returns, `init` and the destructor give back all that they take.
pub init-Encloses :
    (api : LlamaApi) (cfg : EmbeddingConfig)
    → let run = init_made api cfg in Encloses run.2 (destroy run.1)
unfolding destroy
init-Encloses api cfg = IsLife-Encloses _ _ _ _ (init-IsLife api cfg)
