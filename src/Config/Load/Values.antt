-- ===== src/Config/Load/Values.antt =====
-- What `load_config` makes of the values of a document.
use pgquarry.Base.{
  ℕ, ◌+◌, ◌*◌, ◌^◌, ◌<◌, String, ℤ, pos, IsInt, ◌≡◌, refl, subst, Option, none, some, List, [], ◌∷◌,
  arith, str_eq, if◌then◌else◌, Result, ok, err, narrow, narrow-IsInt, narrow_of_IsInt,
  narrow_wraps, value_or,
}
use mathlib.Core.Option
use pgquarry.Config.{AppConfig, LoggingConfig, default_config}
use pgquarry.Config.Load.{
  Table, Document, i32, worker_section, worker_embedding, worker_generation, logging_section,
  read_sections, load_config,
}

-- A document as a list of its entries.
module _ {ℓ} {A : Type ℓ} where
  abbrev pub entry : List (String × A) → String → Option A
  entry [] key = none
  entry ((k, a) ∷ entries) key = if str_eq k key then some a else entry entries key

-- The document that spells out every option of a configuration, under the names of
-- pgquarry.toml.example.
abbrev pub to_document : AppConfig → Document
to_document c = entry (
    (
      "worker",
      record {
        get_string = entry (
            ("conninfo", c.conninfo)
            ∷ ("model_path", c.embedding.model_path)
            ∷ ("generation_model_path", c.generation.model_path)
            ∷ []);
        get_int = entry (
            ("dimensions", c.embedding.dimensions)
            ∷ ("n_threads", c.embedding.n_threads)
            ∷ ("n_ctx", c.embedding.n_ctx)
            ∷ ("batch_size", c.embedding.max_batch_size)
            ∷ ("n_gpu_layers", c.embedding.n_gpu_layers)
            ∷ ("poll_interval_ms", c.poll_interval_ms)
            ∷ ("generation_max_tokens", c.generation.max_tokens)
            ∷ ("generation_n_ctx", c.generation.n_ctx)
            ∷ ("generation_n_threads", c.generation.n_threads)
            ∷ ("generation_n_gpu_layers", c.generation.n_gpu_layers)
            ∷ []);
        get_bool = λ key. none;
      },
    )
    ∷ (
      "retention",
      record {
        get_string = entry (("purge_after", c.retention.purge_after) ∷ []);
        get_int = λ key. none;
        get_bool = entry (("purge_verbose", c.retention.purge_verbose) ∷ []);
      },
    )
    ∷ (
      "logging",
      record {
        get_string =
            entry (("log_file", c.logging.log_file) ∷ ("log_level", c.logging.log_level) ∷ []);
        get_int =
            entry
              (("max_size_mb", c.logging.max_size_mb) ∷ ("max_files", c.logging.max_files) ∷ []);
        get_bool = λ key. none;
      },
    )
    ∷ [])

-- Every number of the configuration is a value of `int`.
pub record HasInts (c : AppConfig) : Type 0 where
  pub dimensions : IsInt c.embedding.dimensions
  pub n_threads : IsInt c.embedding.n_threads
  pub n_ctx : IsInt c.embedding.n_ctx
  pub batch_size : IsInt c.embedding.max_batch_size
  pub n_gpu_layers : IsInt c.embedding.n_gpu_layers
  pub poll_interval_ms : IsInt c.poll_interval_ms
  pub max_tokens : IsInt c.generation.max_tokens
  pub generation_n_ctx : IsInt c.generation.n_ctx
  pub generation_n_threads : IsInt c.generation.n_threads
  pub generation_n_gpu_layers : IsInt c.generation.n_gpu_layers
  pub max_size_mb : IsInt c.logging.max_size_mb
  pub max_files : IsInt c.logging.max_files

-- Loading the document that spells out a configuration gives that configuration back, where its
-- numbers are values of `int` and both providers are "llama", which no key sets.
pub load_config-to_document :
    (c : AppConfig) (path : String)
    → HasInts c
    → c.embedding.provider ≡ "llama"
    → c.generation.provider ≡ "llama"
    → load_config (λ _. ok (to_document c)) path ≡ ok c
unfolding load_config
load_config-to_document c path h e g = cc (
  narrow_of_IsInt c.embedding.dimensions h.dimensions,
  narrow_of_IsInt c.embedding.n_threads h.n_threads,
  narrow_of_IsInt c.embedding.n_ctx h.n_ctx,
  narrow_of_IsInt c.embedding.max_batch_size h.batch_size,
  narrow_of_IsInt c.embedding.n_gpu_layers h.n_gpu_layers,
  narrow_of_IsInt c.poll_interval_ms h.poll_interval_ms,
  narrow_of_IsInt c.generation.max_tokens h.max_tokens,
  narrow_of_IsInt c.generation.n_ctx h.generation_n_ctx,
  narrow_of_IsInt c.generation.n_threads h.generation_n_threads,
  narrow_of_IsInt c.generation.n_gpu_layers h.generation_n_gpu_layers,
  narrow_of_IsInt c.logging.max_size_mb h.max_size_mb,
  narrow_of_IsInt c.logging.max_files h.max_files,
)

i32-IsInt : (t : Table) (key : String) (def : ℤ) → IsInt def → IsInt (i32 t key def)
unfolding i32
i32-IsInt t key def h = go (t.get_int key)
  where
    go : (o : Option ℤ) → IsInt (value_or (Option.map narrow o) def)
    go none = h
    go (some z) = narrow-IsInt z

-- The numbers of the `[worker]` table and those of the `[logging]` table.
record WorkerInts (c : AppConfig) : Type 0 where
  dimensions : IsInt c.embedding.dimensions
  n_threads : IsInt c.embedding.n_threads
  n_ctx : IsInt c.embedding.n_ctx
  batch_size : IsInt c.embedding.max_batch_size
  n_gpu_layers : IsInt c.embedding.n_gpu_layers
  poll_interval_ms : IsInt c.poll_interval_ms
  max_tokens : IsInt c.generation.max_tokens
  generation_n_ctx : IsInt c.generation.n_ctx
  generation_n_threads : IsInt c.generation.n_threads
  generation_n_gpu_layers : IsInt c.generation.n_gpu_layers

worker-Ints : (t : Option Table) → WorkerInts (worker_section t default_config)
unfolding worker_section worker_embedding worker_generation
worker-Ints none = omega arith
worker-Ints (some w) = record {
  dimensions = i32-IsInt w _ _ (omega arith);
  n_threads = i32-IsInt w _ _ (omega arith);
  n_ctx = i32-IsInt w _ _ (omega arith);
  batch_size = i32-IsInt w _ _ (omega arith);
  n_gpu_layers = i32-IsInt w _ _ (omega arith);
  poll_interval_ms = i32-IsInt w _ _ (omega arith);
  max_tokens = i32-IsInt w _ _ (omega arith);
  generation_n_ctx = i32-IsInt w _ _ (omega arith);
  generation_n_threads = i32-IsInt w _ _ (omega arith);
  generation_n_gpu_layers = i32-IsInt w _ _ (omega arith);
}

logging-Ints :
    (t : Option Table) (l : LoggingConfig)
    → IsInt l.max_size_mb
    → IsInt l.max_files
    → IsInt (logging_section t l).max_size_mb × IsInt (logging_section t l).max_files
unfolding logging_section
logging-Ints none l h k = (h, k)
logging-Ints (some t) l h k = (i32-IsInt t _ _ h, i32-IsInt t _ _ k)

worker_logging :
    (t : Option Table) → (worker_section t default_config).logging ≡ default_config.logging
unfolding worker_section
worker_logging none = refl
worker_logging (some w) = refl

read_sections-HasInts : (tbl : Document) → HasInts (read_sections tbl)
unfolding read_sections
read_sections-HasInts tbl =
    let w = worker-Ints (tbl "worker") in
    let l = logging-Ints (tbl "logging") default_config.logging (omega arith) (omega arith) in
    record {
      dimensions = w.dimensions;
      n_threads = w.n_threads;
      n_ctx = w.n_ctx;
      batch_size = w.batch_size;
      n_gpu_layers = w.n_gpu_layers;
      poll_interval_ms = w.poll_interval_ms;
      max_tokens = w.max_tokens;
      generation_n_ctx = w.generation_n_ctx;
      generation_n_threads = w.generation_n_threads;
      generation_n_gpu_layers = w.generation_n_gpu_layers;
      max_size_mb = rw worker_logging l.0;
      max_files = rw worker_logging l.1;
    }

-- Whatever integers a document holds, those of the loaded configuration are values of `int`.
pub load_config-HasInts :
    (parse : String → Result Document) (path : String) (c : AppConfig)
    → load_config parse path ≡ ok c
    → HasInts c
unfolding load_config
load_config-HasInts parse path c h = of_result (parse path) refl
  where
    of_result : (r : Result Document) → parse path ≡ r → HasInts c
    of_result (ok tbl) e = subst HasInts (ground (arith, e)) (read_sections-HasInts tbl)
    of_result (err m) e = absurd (ground (arith, e))

-- An integer beyond `int` is not refused: a `batch_size` of n + k * 2^32 is loaded as n.
pub load_config_wraps :
    (c : AppConfig) (path : String) (n k : ℕ)
    → n < 2 ^ 31
    → c.embedding.max_batch_size ≡ pos (n + k * 2 ^ 32)
    → (d : AppConfig) × (load_config (λ _. ok (to_document c)) path ≡ ok d)
      × (d.embedding.max_batch_size ≡ pos n)
unfolding load_config
load_config_wraps c path n k h e = (read_sections (to_document c), refl, rw e (narrow_wraps n k h))
