-- ===== src/Worker.antt =====
-- src/worker_main.cpp: the arguments, the start, and a round of the main loop. The providers, the
-- connection and the clocks are parameters.
pub mod Start
pub mod Logger
pub mod Rounds
pub mod Backlog
pub mod Claimed
pub mod Purged
pub mod Batches
pub mod Dealt
pub mod Processed
pub mod Steady
pub mod Taken
pub mod Settled
pub mod Arrivals
pub mod Drained
pub mod Served
pub mod Own
pub mod Honest
pub mod Lifetime
use pgquarry.Base.{
  ℕ, zero, suc, ◌+◌, String, ℤ, pos, negsuc, Bool, true, false, not, ◌&&◌, ◌||◌, Option, none, some,
  List, [], ◌∷◌, ◌++◌, str_eq, ltb, leb, if◌then◌else◌, Result, ok, err, pos_part, ltb_ℤ, leb_ℤ,
  has_value,
}
use pgquarry.Config.{AppConfig, RetentionConfig, EmbeddingConfig, GenerationConfig, enabled}
use pgquarry.Config.Purge.{parse_purge_after}
use pgquarry.Config.Validate.{FileSystem, validate}
use pgquarry.Config.Load.{Document, load_config}
use pgquarry.Database.{JobRow}
use Logger.{LoggerApi, LoggerEnd, returned, terminated, init_logger, unset_logging}
use pgquarry.Job.{JobType, embed, generate}
use pgquarry.Store.{ClaimedJob, claim_pending, notify_jobs, purge_done}
use pgquarry.Store.Connection.{Env, Session}
use pgquarry.Store.Literal.{Float}
use pgquarry.Watch.{WatchCache, load, begin_batch}
use pgquarry.Dispatch.{Written, dispatch_embed_jobs, dispatch_generate_jobs}

-- What the arguments ask for: an exit with a status, or a run with a configuration file.
pub data Arguments : Type 0 where
  exits : ℕ → Arguments
  runs : String → Arguments

-- The loop over the arguments and the test after it.
unfoldable pub parse_arguments : String → List String → Arguments
parse_arguments config_path [] = if str_eq config_path "" then exits 1 else runs config_path
parse_arguments config_path (a ∷ []) =
    if str_eq a "--config"
    then exits 1
    else if str_eq a "--help" || str_eq a "-h"
    then exits 0
    else exits 1
parse_arguments config_path (a ∷ value ∷ arguments) =
    let rest = parse_arguments value arguments in
    if str_eq a "--config"
    then rest
    else if str_eq a "--help" || str_eq a "-h"
    then exits 0
    else exits 1

-- What the start depends on.
pub record Machine : Type 0 where
  pub logger : LoggerApi
  pub parse_file : String → Result Document
  pub files : FileSystem
  -- making and initialising the providers; the first one gives its dimensions
  pub init_embedding : EmbeddingConfig → Result ℤ
  pub init_generation : GenerationConfig → Result (Unit {0})
  -- `JobStore::connect`
  pub connect : String → Result Session

-- The start ends with an exit status, with an exception that leaves `main`, or with a configuration, whether there is a generation
-- provider, and the loaded cache.
pub data Started : Type 0 where
  stopped : ℕ → Started
  aborted : String → Started
  ready : AppConfig → Bool → WatchCache → Started

abbrev pub no_errors : List String → Bool
no_errors [] = true
no_errors (e ∷ errors) = false

module _ (env : Env) (machine : Machine) where
  unfoldable pub loaded_mappings : AppConfig → Bool → Result (Unit {0}) × WatchCache → Started
  loaded_mappings cfg has_generation (err e, w) = stopped 1
  loaded_mappings cfg has_generation (ok _, w) = ready cfg has_generation w

  unfoldable pub connected : AppConfig → Bool → Result Session → Started
  connected cfg has_generation (err e) = stopped 1
  connected cfg has_generation (ok s) =
      loaded_mappings cfg has_generation
        (load env (record { session = s; by_key = []; refreshed_this_batch = false }))

  abbrev pub initialised : AppConfig → Result (Unit {0}) → Started
  initialised cfg (err e) = stopped 1
  initialised cfg (ok _) = connected cfg true (machine.connect cfg.conninfo)

  -- The generation provider is optional.
  unfoldable pub with_generation : AppConfig → Started
  with_generation cfg =
      if str_eq cfg.generation.model_path ""
      then connected cfg false (machine.connect cfg.conninfo)
      else initialised cfg (machine.init_generation cfg.generation)

  unfoldable pub checked_dimensions : AppConfig → Result ℤ → Started
  checked_dimensions cfg (err e) = stopped 1
  checked_dimensions cfg (ok dimensions) =
      if leb_ℤ dimensions cfg.embedding.dimensions && leb_ℤ cfg.embedding.dimensions dimensions
      then with_generation cfg
      else stopped 1

  -- After the call of `init_logger`.
  unfoldable pub logged : AppConfig → LoggerEnd → Started
  logged cfg (terminated e) = aborted e
  logged cfg returned =
      if no_errors (validate machine.files cfg)
      then checked_dimensions cfg (machine.init_embedding cfg.embedding)
      else stopped 1

  unfoldable pub configured : Result AppConfig → Started
  configured (err e) = stopped 1
  configured (ok cfg) = logged cfg (init_logger machine.logger cfg.logging unset_logging).0

  unfoldable pub start : List String → Started
  start arguments = elim (parse_arguments "" arguments) [
    | exits status ↦ stopped status
    | runs config_path ↦ configured (load_config machine.parse_file config_path)
  ]

-- The variables of the main loop; times of the steady clock are in seconds.
pub record Worker : Type 0 where
  pub cache : WatchCache
  pub last_purge_check : ℕ

abbrev pub with_session : Session → Worker → Worker
with_session s k = record k { cache = record k.cache { session = s } }

abbrev pub is_generate : JobType → Bool
is_generate generate = true
is_generate embed = false

-- The two lists of jobs.
unfoldable pub of_type : Bool → List ClaimedJob → List ClaimedJob
of_type generates [] = []
of_type generates (job ∷ jobs) =
    let rest = of_type generates jobs in
    if is_generate job.job_type
    then (if generates then job ∷ rest else rest)
    else (if generates then rest else job ∷ rest)

module _ (env : Env) (cfg : AppConfig) (embed_batch : List String → Result (List (List Float)))
    (provider : Option (String → ℤ → Result String)) where
  -- Both dispatches; C++ leaves open which operand of the sum is evaluated first.
  unfoldable pub dispatch_both : Bool → List ClaimedJob → WatchCache → Written
  dispatch_both true claimed w =
      let (n, v) = dispatch_embed_jobs env embed_batch (of_type false claimed) w in
      let (m, u) =
        dispatch_generate_jobs env provider cfg.generation.max_tokens (of_type true claimed) v in
      (n + m, u)
  dispatch_both false claimed w =
      let (m, v) =
        dispatch_generate_jobs env provider cfg.generation.max_tokens (of_type true claimed) w in
      let (n, u) = dispatch_embed_jobs env embed_batch (of_type false claimed) v in (n + m, u)

  abbrev pub notified : Written → WatchCache
  notified (zero, w) = w
  notified (suc n, w) = record w { session = notify_jobs env (suc n) w.session }

  unfoldable pub process : Bool → List ClaimedJob → WatchCache → WatchCache
  process embed_first [] w = w
  process embed_first (job ∷ jobs) w =
      notified (dispatch_both embed_first (job ∷ jobs) (begin_batch env w))

  abbrev pub swept : String → WatchCache → WatchCache
  swept text w = record w {
    session = (purge_done env text cfg.retention.purge_verbose w.session).1;
  }

  -- The end of a round, at a time of the steady clock.
  unfoldable pub sweep : ℕ → Worker → Worker
  sweep now k = elim (parse_purge_after cfg.retention.purge_after) [
    | none ↦ k
    | some text ↦
        if enabled cfg.retention && leb (k.last_purge_check + 60) now
        then record { cache = swept text k.cache; last_purge_check = now }
        else k
  ]

  -- After `claim_pending`, which may have thrown: then nothing else is done in the round.
  unfoldable pub claimed_round : Bool → ℕ → Result (List ClaimedJob) → Worker → Worker
  claimed_round embed_first now (err e) k = k
  claimed_round embed_first now (ok claimed) k =
      sweep now (record k { cache = process embed_first claimed k.cache })

  -- A round of the main loop.
  unfoldable pub round : Bool → ℕ → Worker → Worker
  round embed_first now k =
      let (r, s) = claim_pending env (pos_part cfg.embedding.max_batch_size) k.cache.session in
      claimed_round embed_first now r (with_session s k)

-- A round of the main loop as the world meets it: the rows that clients have added to pgquarry.jobs
-- before it, which dispatch comes first, and the time.
pub record Round : Type 0 where
  pub arrivals : List JobRow
  pub embed_first : Bool
  pub now : ℕ

abbrev pub with_arrivals : List JobRow → WatchCache → WatchCache
with_arrivals rows w = record w {
  session = record w.session { db = record w.session.db { jobs = w.session.db.jobs ++ rows } };
}

module _ (env : Env) (cfg : AppConfig) (embed_batch : List String → Result (List (List Float)))
    (provider : Option (String → ℤ → Result String)) where
  -- The main loop until the signal that ends it.
  unfoldable pub main_loop : List Round → Worker → Worker
  main_loop [] k = k
  main_loop (r ∷ rounds) k = main_loop rounds (
      round env cfg embed_batch provider r.embed_first r.now
        (record k { cache = with_arrivals r.arrivals k.cache }))
