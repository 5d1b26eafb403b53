-- ===== src/Config/Load.antt =====
-- `load_config` of src/config.hpp. The TOML library is a parameter: its parser, and what
-- `get_as` finds in a table for a key.
pub mod Values
pub mod Made
use Prim.Native.String.{◌++◌}
use mathlib.Core.Option
use pgquarry.Base.{String, ℤ, Bool, Option, none, some, Result, ok, err, value_or, narrow}
use pgquarry.Config.{
  AppConfig, RetentionConfig, LoggingConfig, EmbeddingConfig, GenerationConfig, default_config,
}

-- `get_as<std::string>`, `get_as<int64_t>` and `get_as<bool>` of a table: nothing where the key is
-- missing or its value has another type.
pub record Table : Type 0 where
  pub get_string : String → Option String
  pub get_int : String → Option ℤ
  pub get_bool : String → Option Bool

-- `tbl[name].as_table()`.
abbrev pub Document : Type 0
Document = String → Option Table

-- The three lambdas.
pub str : Table → String → String → String
str t key def = value_or (t.get_string key) def

pub i32 : Table → String → ℤ → ℤ
i32 t key def = value_or (Option.map narrow (t.get_int key)) def

pub bl : Table → String → Bool → Bool
bl t key def = value_or (t.get_bool key) def

pub worker_embedding : Table → EmbeddingConfig → EmbeddingConfig
worker_embedding w e = record e {
  model_path = str w "model_path" e.model_path;
  dimensions = i32 w "dimensions" e.dimensions;
  n_threads = i32 w "n_threads" e.n_threads;
  n_ctx = i32 w "n_ctx" e.n_ctx;
  max_batch_size = i32 w "batch_size" e.max_batch_size;
  n_gpu_layers = i32 w "n_gpu_layers" e.n_gpu_layers;
}

pub worker_generation : Table → GenerationConfig → GenerationConfig
worker_generation w g = record g {
  model_path = str w "generation_model_path" g.model_path;
  max_tokens = i32 w "generation_max_tokens" g.max_tokens;
  n_ctx = i32 w "generation_n_ctx" g.n_ctx;
  n_threads = i32 w "generation_n_threads" g.n_threads;
  n_gpu_layers = i32 w "generation_n_gpu_layers" g.n_gpu_layers;
}

pub worker_section : Option Table → AppConfig → AppConfig
worker_section none c = c
worker_section (some w) c = record c {
  conninfo = str w "conninfo" c.conninfo;
  embedding = worker_embedding w c.embedding;
  generation = worker_generation w c.generation;
  poll_interval_ms = i32 w "poll_interval_ms" c.poll_interval_ms;
}

pub retention_section : Option Table → RetentionConfig → RetentionConfig
retention_section none r = r
retention_section (some t) r = record r {
  purge_after = str t "purge_after" r.purge_after;
  purge_verbose = bl t "purge_verbose" r.purge_verbose;
}

pub logging_section : Option Table → LoggingConfig → LoggingConfig
logging_section none l = l
logging_section (some t) l = record l {
  log_file = str t "log_file" l.log_file;
  log_level = str t "log_level" l.log_level;
  max_size_mb = i32 t "max_size_mb" l.max_size_mb;
  max_files = i32 t "max_files" l.max_files;
}

-- The three sections, over the defaults.
pub read_sections : Document → AppConfig
unfolding worker_section worker_embedding worker_generation retention_section logging_section str
    i32 bl
read_sections tbl =
    let c = worker_section (tbl "worker") default_config in
    record c {
      retention = retention_section (tbl "retention") c.retention;
      logging = logging_section (tbl "logging") c.logging;
    }

-- `parse_file` throws on a document that is no TOML.
unfoldable pub load_config : (String → Result Document) → String → Result AppConfig
unfolding read_sections
load_config parse_file path = elim (parse_file path) [
  | ok tbl ↦ ok (read_sections tbl)
  | err e ↦ err ("config parse error in '" ++ (path ++ ("': " ++ e)))
]
