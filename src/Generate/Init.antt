-- ===== src/Generate/Init.antt =====
-- The life of a `LlamaGenerationProvider`: its members, `init`, and its end.
use Prim.Native.String.{◌++◌ as ◌++ₛ◌}
use pgquarry.Base.{
  ℕ, String, ℤ, ◌≡◌, inl, inr, refl, Option, none, some, List, [], ◌∷◌, ◌++◌, ok, err, low_word,
  Option-cases,
}
use pgquarry.Config.{GenerationConfig}
use pgquarry.Lifetime.{
  Call, load_model, free_model, make_context, free_context, Encloses, freed, IsLife, no_model,
  given_up, held, IsLife-Encloses,
}
use pgquarry.Llama.Init.{LlamaApi, ContextParams, Ran, gpu_layers}
use pgquarry.Store.Effects.{returned}

pub record LlamaGenerationProvider : Type 0 where
  pub model_path : String
  pub n_threads : ℤ
  pub n_ctx : ℤ
  pub n_gpu_layers : ℤ
  pub model_handle : Option ℕ
  pub ctx_handle : Option ℕ
  pub vocab : Option ℕ
  pub chat_tmpl : Option String

unfoldable pub make_provider : GenerationConfig → LlamaGenerationProvider
make_provider cfg = record {
  model_path = cfg.model_path;
  n_threads = cfg.n_threads;
  n_ctx = cfg.n_ctx;
  n_gpu_layers = cfg.n_gpu_layers;
  model_handle = none;
  ctx_handle = none;
  vocab = none;
  chat_tmpl = none;
}

-- The destructor, as the calls that it makes.
unfoldable pub destroy : LlamaGenerationProvider → List Call
destroy p = freed free_context p.ctx_handle ++ freed free_model p.model_handle

unfoldable pub context_params : LlamaApi → LlamaGenerationProvider → ContextParams
context_params api p = record api.default_params {
  n_ctx = low_word p.n_ctx;
  n_batch = low_word p.n_ctx;
  n_threads = low_word p.n_threads;
  n_threads_batch = low_word p.n_threads;
}

module _ (api : LlamaApi) where
  -- `init` from `llama_init_from_model` on.
  unfoldable pub with_context : ℕ → LlamaGenerationProvider → Ran LlamaGenerationProvider
  with_context m p = elim (api.init_from_model m (context_params api p)) [
    | none ↦ (
      err "LlamaGenerationProvider: failed to create llama context",
      record p { model_handle = none; ctx_handle = none },
      load_model m ∷ free_model m ∷ [],
    )
    | some c ↦ (ok tt, record p { ctx_handle = some c }, load_model m ∷ make_context c ∷ [])
  ]

  -- `init` from `llama_model_chat_template` on.
  unfoldable pub with_template : ℕ → LlamaGenerationProvider → Ran LlamaGenerationProvider
  with_template m p = elim (api.chat_template m) [
    | none ↦ (
      err (
          "LlamaGenerationProvider: model '"
          ++ₛ (p.model_path
              ++ₛ ("' has no built-in chat template — "
                  ++ₛ ("pgquarry only supports models with a baked-in chat_template (see GGUF metadata); "
                      ++ₛ "pick an instruct/chat-tuned GGUF export instead")))),
      record p { model_handle = none; chat_tmpl = none },
      load_model m ∷ free_model m ∷ [],
    )
    | some t ↦ with_context m (record p { chat_tmpl = some t })
  ]

  unfoldable pub init : LlamaGenerationProvider → Ran LlamaGenerationProvider
  init p = elim (api.load_from_file p.model_path (gpu_layers api p.n_gpu_layers)) [
    | none ↦ (
      err (
          "LlamaGenerationProvider: failed to load model from '"
          ++ₛ (p.model_path ++ₛ "' — check that the path exists and is a valid GGUF file")),
      record p { model_handle = none },
      [],
    )
    | some m ↦ with_template m (record p { model_handle = some m; vocab = some (api.get_vocab m) })
  ]

unfoldable pub name : LlamaGenerationProvider → String
name p = "llama[" ++ₛ (p.model_path ++ₛ "]")

-- The provider made of a configuration, after `init`.
abbrev pub init_made : LlamaApi → GenerationConfig → Ran LlamaGenerationProvider
init_made api cfg = init api (make_provider cfg)

-- How a run of `init` ends.
abbrev pub Lives : Ran LlamaGenerationProvider → Type 0
Lives run = IsLife (returned run.0) run.1.model_handle run.1.ctx_handle run.2

module _ (api : LlamaApi) where
  with_context-Lives :
      (m : ℕ) (p : LlamaGenerationProvider) → p.model_handle ≡ some m → Lives (with_context api m p)
  unfolding with_context
  with_context-Lives m p h = elim (Option-cases (api.init_from_model m (context_params api p))) [
    | inl e ↦ rw (with_context, e) (given_up m)
    | inr (c, e) ↦ rw (with_context, e, h) (held m c)
  ]

  with_template-Lives :
      (m : ℕ) (p : LlamaGenerationProvider)
      → p.model_handle ≡ some m
      → p.ctx_handle ≡ none
      → Lives (with_template api m p)
  unfolding with_template
  with_template-Lives m p h k = elim (Option-cases (api.chat_template m)) [
    | inl e ↦ rw (with_template, e, k) (given_up m)
    | inr (t, e) ↦ rw (with_template, e) (with_context-Lives m _ h)
  ]

  -- Where `init` of the generation provider throws it holds neither a model nor a context, and where it
  -- returns it holds both.
  init-Lives : (cfg : GenerationConfig) → Lives (init_made api cfg)
  unfolding init make_provider
  init-Lives cfg =
      elim (Option-cases (api.load_from_file cfg.model_path (gpu_layers api cfg.n_gpu_layers))) [
        | inl e ↦ rw (init, e) no_model
        | inr (m, e) ↦ rw (init, e) (with_template-Lives m _ refl refl)
      ]

  -- Whatever llama.cpp returns, `init` and the destructor give back all that they take.
  pub init-Encloses :
      (cfg : GenerationConfig) → let run = init_made api cfg in Encloses run.2 (destroy run.1)
  unfolding destroy
  init-Encloses cfg = IsLife-Encloses _ _ _ _ (init-Lives cfg)
