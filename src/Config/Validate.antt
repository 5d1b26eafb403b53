-- ===== src/Config/Validate.antt =====
-- `AppConfig::validate` of src/config.hpp. The file system is a parameter.
pub mod Accepts
use Prim.Native.String.{◌++◌}
use pgquarry.Base.{
  ℕ, String, ℤ, pos, Bool, true, false, not, ◌||◌, Option, none, some, List, [], ◌∷◌, str_eq, ◌==◌,
  leb_ℤ, ltb_ℤ, has_value, if◌then◌else◌,
}
use pgquarry.Config.{AppConfig, RetentionConfig, LoggingConfig, EmbeddingConfig, GenerationConfig}
use pgquarry.Config.Purge.{parse_purge_after}

-- What `std::filesystem` and `access` say of a path.
pub record FileSystem : Type 0 where
  pub exists : String → Bool
  pub is_regular_file : String → Bool
  pub readable : String → Bool
  pub file_size : String → ℕ

-- `if (failed) errors.push_back(message)`.
abbrev pub fail_if : Bool → String → Option String
fail_if failed message = if failed then some message else none

-- The errors that were pushed, in order.
pub collect : List (Option String) → List String
collect [] = []
collect (none ∷ checks) = collect checks
collect (some message ∷ checks) = message ∷ collect checks

-- The chain of tests on a model file; `key` is the key of pgquarry.toml that names it.
pub model_file_error : FileSystem → String → String → Option String
model_file_error fs key path =
    if not (fs.exists path)
    then some ("[worker] " ++ (key ++ (" does not exist: '" ++ (path ++ "'"))))
    else if not (fs.is_regular_file path)
    then some ("[worker] " ++ (key ++ (" exists but is not a regular file: '" ++ (path ++ "'"))))
    else if not (fs.readable path)
    then some (
        "[worker] "
        ++ (key ++ (" exists but is not readable by the current user: '" ++ (path ++ "'"))))
    else if fs.file_size path == 0
    then some ("[worker] " ++ (key ++ (" points to an empty (0-byte) file: '" ++ (path ++ "'"))))
    else none

-- `model_path` is required.
pub embedding_model_error : FileSystem → String → Option String
embedding_model_error fs path =
    if str_eq path ""
    then some "[worker] model_path is required"
    else model_file_error fs "model_path" path

-- `generation_model_path` is optional.
pub generation_model_error : FileSystem → String → Option String
generation_model_error fs path =
    if str_eq path "" then none else model_file_error fs "generation_model_path" path

pub known_level : List String → String → Bool
known_level [] level = false
known_level (l ∷ levels) level = str_eq l level || known_level levels level

-- `kLogLevels`.
abbrev pub log_levels : List String
log_levels = "trace" ∷ "debug" ∷ "info" ∷ "warn" ∷ "error" ∷ "critical" ∷ "off" ∷ []

pub purge_error : String → Option String
purge_error raw = fail_if (not (has_value (parse_purge_after raw))) (
    "[retention] purge_after must be empty, '0', or a duration like "
    ++ ("'7d', '12h', '30m', '45s' (got '" ++ (raw ++ "')")))

pub level_error : String → Option String
level_error level = fail_if (not (known_level log_levels level)) (
    "[logging] log_level must be one of trace|debug|info|warn|error|critical|off "
    ++ ("(got '" ++ (level ++ "')")))

abbrev pub not_positive : ℤ → Bool
not_positive x = leb_ℤ x (pos 0)

abbrev pub negative : ℤ → Bool
negative x = ltb_ℤ x (pos 0)

-- The tests of `validate`, in its order.
pub checks : FileSystem → AppConfig → List (Option String)
checks fs c =
    fail_if (str_eq c.conninfo "") "[worker] conninfo is required"
    ∷ embedding_model_error fs e.model_path
    ∷ fail_if (not_positive e.dimensions) "[worker] dimensions must be > 0"
    ∷ fail_if (not_positive e.n_threads) "[worker] n_threads must be > 0"
    ∷ fail_if (not_positive e.n_ctx) "[worker] n_ctx must be > 0"
    ∷ generation_model_error fs g.model_path
    ∷ fail_if (not_positive g.max_tokens) "[worker] generation_max_tokens must be > 0"
    ∷ fail_if (not_positive g.n_ctx) "[worker] generation_n_ctx must be > 0"
    ∷ fail_if (not_positive g.n_threads) "[worker] generation_n_threads must be > 0"
    ∷ fail_if (negative g.n_gpu_layers) "[worker] generation_n_gpu_layers must be >= 0"
    ∷ fail_if (not_positive e.max_batch_size) "[worker] batch_size must be > 0"
    ∷ fail_if (negative e.n_gpu_layers) "[worker] n_gpu_layers must be >= 0"
    ∷ fail_if (not_positive c.poll_interval_ms) "[worker] poll_interval_ms must be > 0"
    ∷ purge_error c.retention.purge_after
    ∷ level_error c.logging.log_level
    ∷ fail_if (not_positive c.logging.max_size_mb) "[logging] max_size_mb must be > 0"
    ∷ fail_if (not_positive c.logging.max_files) "[logging] max_files must be > 0"
    ∷ []
  where
    e : EmbeddingConfig
    e = c.embedding

    g : GenerationConfig
    g = c.generation

unfoldable pub validate : FileSystem → AppConfig → List String
validate fs c = collect (checks fs c)
