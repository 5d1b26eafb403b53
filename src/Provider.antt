-- ===== src/Provider.antt =====
-- src/embedding_provider.cpp and src/generation_provider.cpp: the choice of a provider by its name,
-- and the `embed_batch` that a provider has unless it overrides it.
use Prim.Native.String.{◌++◌}
use pgquarry.Base.{
  String, ◌≡◌, sym, ◌∙◌, List, [], ◌∷◌, ◌++◌ as ◌++ₗ◌, map, str_eq, if◌then◌else◌, Result, ok, err,
}
use mathlib.Core.List.{append_assoc, append-nil}
use pgquarry.Config.{EmbeddingConfig, GenerationConfig}
use pgquarry.Store.Literal.{Float}

-- The providers that there are.
pub data Provider : Type 0 where
  llama : Provider

unfoldable pub make_embedding_provider : EmbeddingConfig → Result Provider
make_embedding_provider cfg =
    if str_eq cfg.provider "llama"
    then ok llama
    else err (
        "make_embedding_provider: unknown provider '"
        ++ (cfg.provider ++ "' — v0 only implements 'llama'"))

unfoldable pub make_generation_provider : GenerationConfig → Result Provider
make_generation_provider cfg =
    if str_eq cfg.provider "llama"
    then ok llama
    else err (
        "make_generation_provider: unknown provider '"
        ++ (cfg.provider ++ "' — v1 only implements 'llama'"))

-- The loop of `EmbeddingProvider::embed_batch`, with the results so far.
embed_from : (String → List Float) → List (List Float) → List String → List (List Float)
embed_from embed results [] = results
embed_from embed results (t ∷ texts) = embed_from embed (results ++ₗ embed t ∷ []) texts

pub embed_each : (String → List Float) → List String → List (List Float)
unfolding embed_from
embed_each embed texts = embed_from embed [] texts

embed_from-map :
    (embed : String → List Float) (results : List (List Float)) (texts : List String)
    → embed_from embed results texts ≡ results ++ₗ map embed texts
unfolding embed_from
embed_from-map embed results [] = sym (append-nil results)
embed_from-map embed results (t ∷ texts) =
    embed_from-map embed (results ++ₗ embed t ∷ []) texts
    ∙ append_assoc results (embed t ∷ []) (map embed texts)

pub embed_each-map :
    (embed : String → List Float) (texts : List String) → embed_each embed texts ≡ map embed texts
unfolding embed_each
embed_each-map embed texts = embed_from-map embed [] texts
