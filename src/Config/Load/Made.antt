-- ===== src/Config/Load/Made.antt =====
-- The providers of a loaded configuration.
use pgquarry.Base.{String, ◌≡◌, refl, subst, Option, none, some, arith, Result, ok, err}
use pgquarry.Config.{AppConfig, default_config}
use pgquarry.Config.Load.{
  Table, Document, worker_section, worker_embedding, worker_generation, read_sections, load_config,
}
use pgquarry.Provider.{llama, make_embedding_provider, make_generation_provider}

-- The two factories make a provider.
abbrev pub AreMade : AppConfig → Type 0
AreMade c =
    (make_embedding_provider c.embedding ≡ ok llama)
    × (make_generation_provider c.generation ≡ ok llama)

worker_section-AreMade : (t : Option Table) → AreMade (worker_section t default_config)
unfolding worker_section worker_embedding worker_generation make_embedding_provider
    make_generation_provider
worker_section-AreMade none = (refl, refl)
worker_section-AreMade (some w) = (refl, refl)

read_sections-AreMade : (tbl : Document) → AreMade (read_sections tbl)
unfolding read_sections
read_sections-AreMade tbl = worker_section-AreMade (tbl "worker")

-- For every configuration that `load_config` returns, whatever the file holds, neither factory throws:
-- the names of the providers are not read from the file.
load_config-AreMade :
    (parse : String → Result Document) (path : String) (c : AppConfig)
    → load_config parse path ≡ ok c
    → AreMade c
unfolding load_config
load_config-AreMade parse path c h = of_result (parse path) refl
  where
    of_result : (r : Result Document) → parse path ≡ r → AreMade c
    of_result (ok tbl) e =
        let q : read_sections tbl ≡ c = ground (arith, e) in
        subst AreMade q (read_sections-AreMade tbl)
    of_result (err m) e = absurd (ground (arith, e))
