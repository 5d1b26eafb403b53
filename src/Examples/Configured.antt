-- ===== src/Examples/Configured.antt =====
-- Configurations: loading, validation and retention periods.
use pgquarry.Base.{◌≡◌, ◌↔◌, ◌+◌, ◌*◌, ◌^◌, refl, pos, true, some, [], arith, ok}
use pgquarry.Config.{AppConfig, default_config, default_embedding}
use pgquarry.Config.Purge.{parse_purge_after}
use pgquarry.Config.Purge.Duration.{Duration, parse_purge_after_accepts}
use pgquarry.Config.Validate.{FileSystem, validate}
use pgquarry.Config.Validate.Accepts.{IsRunnable, validate_accepts}
use pgquarry.Config.Load.{load_config}
use pgquarry.Config.Load.Values.{HasInts, to_document, load_config-to_document, load_config_wraps}

abbrev pub disk : FileSystem
disk = record {
  exists = λ path. true;
  is_regular_file = λ path. true;
  readable = λ path. true;
  file_size = λ path. 4096;
}

abbrev pub config : AppConfig
config = record default_config {
  conninfo = "dbname=pgquarry";
  embedding = record default_embedding { model_path = "model.gguf" };
  poll_interval_ms = pos 250;
}

abbrev oversized : AppConfig
oversized = record config {
  embedding = record config.embedding { max_batch_size = pos (8 + 3 * 2 ^ 32) };
}

pub config-HasInts : HasInts config
config-HasInts = record {
  dimensions = omega arith;
  n_threads = omega arith;
  n_ctx = omega arith;
  batch_size = omega arith;
  n_gpu_layers = omega arith;
  poll_interval_ms = omega arith;
  max_tokens = omega arith;
  generation_n_ctx = omega arith;
  generation_n_threads = omega arith;
  generation_n_gpu_layers = omega arith;
  max_size_mb = omega arith;
  max_files = omega arith;
}

parse_purge_after_accepts_example :
    (parse_purge_after "7d" ≡ some "7 days") ↔ Duration "7d" "7 days"
parse_purge_after_accepts_example = parse_purge_after_accepts "7d" "7 days"

validate_accepts_example : (validate disk config ≡ []) ↔ IsRunnable disk config
validate_accepts_example = validate_accepts disk config

load_config-to_document_example :
    load_config (λ _. ok (to_document config)) "pgquarry.toml" ≡ ok config
load_config-to_document_example =
    load_config-to_document config "pgquarry.toml" config-HasInts refl refl

load_config_wraps_example :
    (d : AppConfig) × (load_config (λ _. ok (to_document oversized)) "pgquarry.toml" ≡ ok d)
    × (d.embedding.max_batch_size ≡ pos 8)
load_config_wraps_example = load_config_wraps oversized "pgquarry.toml" 8 3 (omega arith) refl
