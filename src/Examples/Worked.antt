-- ===== src/Examples/Worked.antt =====
-- A start of the worker and rounds of its loop.
use pgquarry.Base.{
  arith, inl, ◌≤◌, ◌≡◌, ◌⊎◌, refl, String, pos, none, true, false, List, [], ◌∷◌, Result, ok, err,
  eq_iff,
}
use pgquarry.Config.{enabled}
use pgquarry.Config.Validate.Accepts.{IsRunnable, IsModelFile, OneOf, validate_accepts}
use pgquarry.Config.Purge.Duration.{Duration}
use pgquarry.Config.Load.Values.{to_document, load_config-to_document}
use pgquarry.Store.{claim_pending}
use pgquarry.Store.Literal.{Float}
use pgquarry.Watch.{WatchCache, load}
use pgquarry.Watch.Refines.{load_ok}
use pgquarry.Worker.Logger.{LoggerApi, init_logger}
use pgquarry.Worker.{
  runs, parse_arguments, Machine, ready, start, configured, logged, checked_dimensions,
  with_generation, connected, loaded_mappings, Worker, with_session, round,
}
use pgquarry.Worker.Start.{IsChecked, start-IsChecked}
use pgquarry.Worker.Rounds.{unswept, round_times}
use pgquarry.Examples.Configured.{config, config-HasInts, disk}
use pgquarry.Examples.Queue.{server, session, cache, provider}

abbrev pub quiet_logger : LoggerApi
quiet_logger = record {
  parent_path = λ path. "";
  create_directories = λ path. none;
  rotating_logger = λ path size count. ok 1;
  level_from_str = λ level. 2;
}

abbrev pub machine : Machine
machine = record {
  logger = quiet_logger;
  parse_file = λ path. ok (to_document config);
  files = disk;
  init_embedding = λ c. ok (pos 1024);
  init_generation = λ c. err "no model";
  connect = λ conninfo. ok session;
}

abbrev pub arguments : List String
arguments = "--config" ∷ "pgquarry.toml" ∷ []

abbrev pub worker : Worker
worker = record { cache = cache; last_purge_check = 30 }

abbrev pub embed_batch : List String → Result (List (List Float))
embed_batch texts = ok ((1 ∷ 2 ∷ []) ∷ (3 ∷ 4 ∷ []) ∷ [])

round_times_example :
    (round server config embed_batch provider true 95 worker
      ≡ unswept server config embed_batch provider true
          (claim_pending server 8 session).0
          (with_session (claim_pending server 8 session).1 worker))
    ⊎ ((enabled config.retention ≡ true)
        × (90 ≤ 95)
        × ((round server config embed_batch provider true 95 worker).last_purge_check ≡ 95))
round_times_example = round_times server config embed_batch provider true 95 worker

config-IsRunnable : IsRunnable disk config
config-IsRunnable = record {
  conninfo = λ e. ground (arith, (eq_iff "dbname=pgquarry" "").1 e);
  model_given = λ e. ground (arith, (eq_iff "model.gguf" "").1 e);
  model = model;
  dimensions = omega arith;
  n_threads = omega arith;
  n_ctx = omega arith;
  generation_model = inl refl;
  max_tokens = omega arith;
  generation_n_ctx = omega arith;
  generation_n_threads = omega arith;
  generation_n_gpu_layers = omega arith;
  batch_size = omega arith;
  n_gpu_layers = omega arith;
  poll_interval_ms = omega arith;
  purge_after = ("0 seconds", Duration.off (inl refl) refl);
  log_level = OneOf.later (OneOf.later (OneOf.this refl));
  max_size_mb = omega arith;
  max_files = omega arith;
}
  where
    model : IsModelFile disk "model.gguf"
    model = record { found = refl; regular = refl; can_read = refl; filled = λ e. omega (arith, e) }

abbrev pub unloaded : WatchCache
unloaded = cache

pub start_run : start server machine arguments ≡ ready config false (load server unloaded).1
unfolding start parse_arguments configured logged init_logger checked_dimensions with_generation
    connected loaded_mappings
start_run =
    rw
      (
        load_config-to_document config "pgquarry.toml" config-HasInts refl refl,
        (validate_accepts disk config).1 config-IsRunnable,
        (load_ok server unloaded refl).0,
      )
      refl

start-IsChecked_example :
    (path : String) × (parse_arguments "" arguments ≡ runs path)
    × IsChecked server machine config false (load server unloaded).1 path config
start-IsChecked_example =
    start-IsChecked server machine config false (load server unloaded).1 arguments start_run
