-- ===== src/Config.antt =====
-- The configuration of the worker: src/config.hpp, src/embedding_config.hpp and
-- src/generation_config.hpp. An `int` is an integer that `IsInt` bounds.
pub mod Purge
pub mod Validate
pub mod Load
use pgquarry.Base.{String, ℤ, pos, Bool, false, not, ◌&&◌, str_eq}

-- One row of pgquarry.watched_tables.
pub record TableMapping : Type 0 where
  pub source : String
  pub job_type : String
  pub source_column : String
  pub id_column : String
  pub target_table : String
  pub target_column : String
  pub target_id_column : String

unfoldable pub same_table : TableMapping → Bool
same_table m = str_eq m.target_table m.source

pub record LoggingConfig : Type 0 where
  pub log_file : String
  pub log_level : String
  pub max_size_mb : ℤ
  pub max_files : ℤ

pub record RetentionConfig : Type 0 where
  pub purge_after : String
  pub purge_verbose : Bool

-- An empty period or "0" disables purging.
unfoldable pub enabled : RetentionConfig → Bool
enabled r = not (str_eq r.purge_after "") && not (str_eq r.purge_after "0")

pub record EmbeddingConfig : Type 0 where
  pub provider : String
  pub model_path : String
  pub dimensions : ℤ
  pub n_threads : ℤ
  pub n_ctx : ℤ
  pub max_batch_size : ℤ
  pub n_gpu_layers : ℤ

pub record GenerationConfig : Type 0 where
  pub provider : String
  pub model_path : String
  pub max_tokens : ℤ
  pub n_ctx : ℤ
  pub n_threads : ℤ
  pub n_gpu_layers : ℤ

pub record AppConfig : Type 0 where
  pub conninfo : String
  pub embedding : EmbeddingConfig
  pub generation : GenerationConfig
  pub poll_interval_ms : ℤ
  pub retention : RetentionConfig
  pub logging : LoggingConfig

-- The initialisers of the members.
abbrev pub default_logging : LoggingConfig
default_logging = record {
  log_file = "/tmp/pgquarry/worker.log";
  log_level = "info";
  max_size_mb = pos 10;
  max_files = pos 3;
}

abbrev pub default_retention : RetentionConfig
default_retention = record { purge_after = ""; purge_verbose = false }

abbrev pub default_embedding : EmbeddingConfig
default_embedding = record {
  provider = "llama";
  model_path = "";
  dimensions = pos 1024;
  n_threads = pos 4;
  n_ctx = pos 512;
  max_batch_size = pos 8;
  n_gpu_layers = pos 0;
}

abbrev pub default_generation : GenerationConfig
default_generation = record {
  provider = "llama";
  model_path = "";
  max_tokens = pos 128;
  n_ctx = pos 2048;
  n_threads = pos 4;
  n_gpu_layers = pos 0;
}

abbrev pub default_config : AppConfig
default_config = record {
  conninfo = "";
  embedding = default_embedding;
  generation = default_generation;
  poll_interval_ms = pos 1000;
  retention = default_retention;
  logging = default_logging;
}
