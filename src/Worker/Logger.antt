-- ===== src/Worker/Logger.antt =====
-- `init_logger` of src/worker_main.cpp. The file system and spdlog are parameters: what their calls
-- throw. It runs before the configuration is validated.
use Prim.Native.String.{◌++◌ as ◌++ₛ◌}
use pgquarry.Base.{
  ℕ, ◌*◌, ◌%◌, ◌^◌, ◌-◌, suc, String, ℤ, pos, negsuc, ◌≡◌, ◌⊎◌, inl, inr, refl, Option, none, some,
  List, [], ◌∷◌, ◌++◌, Result, ok, err, Option-cases,
}
use pgquarry.Config.{LoggingConfig}

pub record LoggerApi : Type 0 where
  pub parent_path : String → String
  -- the `filesystem_error` that `create_directories` throws
  pub create_directories : String → Option String
  -- `rotating_logger_mt` for a file, a size and a number of files: the logger, or the `spdlog_ex`
  pub rotating_logger : String → ℕ → ℕ → Result ℕ
  pub level_from_str : String → ℕ

-- The default logger and its level, if it has been set, and what was printed on stderr.
pub record Logging : Type 0 where
  pub default_logger : Option (ℕ × ℕ)
  pub printed : List String

-- As it is when the process starts.
abbrev pub unset_logging : Logging
unset_logging = record { default_logger = none; printed = [] }

-- How the call ends; an exception that leaves it leaves `main`, and terminates the process.
pub data LoggerEnd : Type 0 where
  returned : LoggerEnd
  terminated : String → LoggerEnd

-- The conversion of an `int` to `size_t`.
abbrev pub to_size : ℤ → ℕ
to_size (pos n) = n
to_size (negsuc n) = 2 ^ 64 - suc n

module _ (api : LoggerApi) where
  unfoldable pub with_logger : LoggingConfig → Result ℕ → Logging → Logging
  with_logger cfg (err e) l = record l {
    printed = l.printed ++ ("logger initialization failed: " ++ₛ e) ∷ [];
  }
  with_logger cfg (ok logger) l = record l {
    default_logger = some (logger, api.level_from_str cfg.log_level);
  }

  unfoldable pub init_logger : LoggingConfig → Logging → LoggerEnd × Logging
  init_logger cfg l = elim (api.create_directories (api.parent_path cfg.log_file)) [
    | some e ↦ (terminated e, l)
    | none ↦ (
      returned,
      with_logger cfg
          (api.rotating_logger cfg.log_file (to_size cfg.max_size_mb * (1024 * 1024) % 2 ^ 64)
            (to_size cfg.max_files))
          l,
    )
  ]

  -- The directory of the log file cannot be made: nothing is printed, and the process is terminated.
  -- Otherwise `init_logger` returns, and either the logger is set or its error is printed.
  init_logger_ends :
      (cfg : LoggingConfig) (l : Logging)
      → let run = init_logger cfg l in
        ((e : String) × (api.create_directories (api.parent_path cfg.log_file) ≡ some e)
          × (run ≡ (terminated e, l)))
        ⊎ ((run.0 ≡ returned)
            × (((logger : ℕ × ℕ) × (run.1 ≡ record l { default_logger = some logger }))
                ⊎ ((e : String) × (run.1 ≡ record l { printed = l.printed ++ e ∷ [] }))))
  unfolding init_logger with_logger
  init_logger_ends cfg l =
      elim (Option-cases (api.create_directories (api.parent_path cfg.log_file))) [
        | inr (e, h) ↦ inl (e, h, rw (init_logger, h) refl)
        | inl h ↦
            rw (init_logger, h)
              (inr (refl, of_logger (api.rotating_logger cfg.log_file _ (to_size cfg.max_files))))
      ]
    where
      of_logger :
          (r : Result ℕ)
          → ((logger : ℕ × ℕ) × (with_logger cfg r l ≡ record l { default_logger = some logger }))
            ⊎ ((e : String) × (with_logger cfg r l ≡ record l { printed = l.printed ++ e ∷ [] }))
      of_logger (ok logger) = inl (_, unfold with_logger in refl)
      of_logger (err e) = inr (_, unfold with_logger in refl)
