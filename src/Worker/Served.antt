-- ===== src/Worker/Served.antt =====
-- From the start of the worker into its main loop.
use pgquarry.Base.{
  ℕ, ◌*◌, ◌<◌, String, ℤ, ◌≡◌, inl, inr, refl, subst, Bool, true, false, ◌&&◌, Option, List, [],
  str_eq, leb_ℤ, Bool-cases, Result, ok, err, All, length, pos_part, arith,
}
use pgquarry.Config.{AppConfig}
use pgquarry.Config.Validate.{validate}
use pgquarry.Config.Load.{load_config}
use pgquarry.Database.{Database}
use pgquarry.Store.Claim.{ids, first, IsAscending, IsKnown}
use pgquarry.Store.Connection.{Env, Session}
use pgquarry.Store.Literal.{Float}
use pgquarry.Watch.{WatchCache, load}
use pgquarry.Watch.Refines.{HasKinds, NoFaults, load_session}
use pgquarry.Watch.Lookup.{load-InSync}
use pgquarry.Worker.Logger.{LoggerEnd, returned, terminated, init_logger, unset_logging}
use pgquarry.Worker.{
  Arguments, exits, runs, parse_arguments, Machine, ready, no_errors, loaded_mappings, connected,
  initialised, with_generation, checked_dimensions, logged, configured, start, Round, main_loop,
}
use pgquarry.Worker.Backlog.{IsFinal, waiting}
use pgquarry.Worker.Batches.{Answers}
use pgquarry.Worker.Arrivals.{Arrive}
use pgquarry.Worker.Drained.{main_loop_ends}
use pgquarry.Worker.Steady.{IsSteady}
use pgquarry.Worker.Taken.{NoLocks}

-- The cache before the first load.
abbrev pub unloaded : Session → WatchCache
unloaded s = record { session = s; by_key = []; refreshed_this_batch = false }

-- A database as the extension keeps it: rising ids, and the kinds that its constraints admit.
pub record IsKept (db : Database) : Type 0 where
  pub ascending : IsAscending (ids db.jobs)
  pub known : All IsKnown db.jobs
  pub kinds : HasKinds db.watched

unloaded-IsSteady :
    (env : Env) (s : Session) → NoFaults env → IsKept s.db → IsSteady (load env (unloaded s)).1
unloaded-IsSteady env s n k =
    let e = (load_session env (unloaded s)).0 in
    record {
      ascending = rw e k.ascending;
      known = rw e k.known;
      kinds = rw e k.kinds;
      in_sync = load-InSync env (unloaded s) (n s.sent) k.kinds;
    }

module _ (env : Env) (machine : Machine) (c : AppConfig) (g : Bool) (w : WatchCache) where
  -- The worker has loaded the cache over a connection.
  abbrev IsLoaded : Type 0
  IsLoaded =
      (conninfo : String) × (s : Session) × (machine.connect conninfo ≡ ok s)
      × ((load env (unloaded s)).1 ≡ w)

  loaded-ready :
      (d : AppConfig) (h : Bool) (r : Result (Unit {0}) × WatchCache)
      → loaded_mappings env machine d h r ≡ ready c g w
      → r.1 ≡ w
  unfolding loaded_mappings
  loaded-ready d h (err e, v) k = cc
  loaded-ready d h (ok _, v) k = cc

  connected-IsLoaded :
      (d : AppConfig) (h : Bool) (r : Result Session)
      → machine.connect d.conninfo ≡ r
      → connected env machine d h r ≡ ready c g w
      → IsLoaded
  unfolding connected
  connected-IsLoaded d h (err e) q k = cc
  connected-IsLoaded d h (ok s) q k = (d.conninfo, s, q, loaded-ready d h (load env (unloaded s)) k)

  initialised-IsLoaded :
      (d : AppConfig) (r : Result (Unit {0})) → initialised env machine d r ≡ ready c g w → IsLoaded
  initialised-IsLoaded d (err e) k = cc
  initialised-IsLoaded d (ok _) k = connected-IsLoaded d true (machine.connect d.conninfo) refl k

  with_generation-IsLoaded :
      (d : AppConfig) → with_generation env machine d ≡ ready c g w → IsLoaded
  unfolding with_generation
  with_generation-IsLoaded d k = elim (Bool-cases (str_eq d.generation.model_path "")) [
    | inl e ↦ connected-IsLoaded d false (machine.connect d.conninfo) refl (rw e at k)
    | inr e ↦ initialised-IsLoaded d (machine.init_generation d.generation) (rw e at k)
  ]

  checked-IsLoaded :
      (d : AppConfig) (r : Result ℤ) → checked_dimensions env machine d r ≡ ready c g w → IsLoaded
  unfolding checked_dimensions
  checked-IsLoaded d (err e) k = cc
  checked-IsLoaded d (ok n) k =
      elim (Bool-cases (leb_ℤ n d.embedding.dimensions && leb_ℤ d.embedding.dimensions n)) [
        | inl h ↦ with_generation-IsLoaded d (rw h at k)
        | inr h ↦ absurd (ground (arith, h, k))
      ]

  logged-IsLoaded :
      (d : AppConfig) (end : LoggerEnd) → logged env machine d end ≡ ready c g w → IsLoaded
  unfolding logged
  logged-IsLoaded d (terminated e) k = cc
  logged-IsLoaded d returned k = elim (Bool-cases (no_errors (validate machine.files d))) [
    | inl h ↦ checked-IsLoaded d (machine.init_embedding d.embedding) (rw h at k)
    | inr h ↦ absurd (ground (arith, h, k))
  ]

  configured-IsLoaded : (r : Result AppConfig) → configured env machine r ≡ ready c g w → IsLoaded
  unfolding configured
  configured-IsLoaded (err e) k = cc
  configured-IsLoaded (ok d) k =
      logged-IsLoaded d (init_logger machine.logger d.logging unset_logging).0 k

  start-IsLoaded : (arguments : List String) → start env machine arguments ≡ ready c g w → IsLoaded
  unfolding start
  start-IsLoaded arguments k = of_arguments (parse_arguments "" arguments) refl
    where
      of_arguments : (a : Arguments) → parse_arguments "" arguments ≡ a → IsLoaded
      of_arguments (exits status) e = absurd (ground (arith, e, k))
      of_arguments (runs path) e =
          configured-IsLoaded (load_config machine.parse_file path) (rw (start, e) at k)

  -- The cache with which the worker gets ready is in step with the table, where the server answers and
  -- gives connections to a database as the extension keeps it.
  start-IsSteady :
      (arguments : List String)
      → NoFaults env
      → ((conninfo : String) (s : Session) → machine.connect conninfo ≡ ok s → IsKept s.db)
      → start env machine arguments ≡ ready c g w
      → IsSteady w
  start-IsSteady arguments n kept k =
      let (conninfo, s, q, e) = start-IsLoaded arguments k in
      subst IsSteady e (unloaded-IsSteady env s n (kept conninfo s q))

  module _ (embed_batch : List String → Result (List (List Float)))
      (provider : Option (String → ℤ → Result String)) where
    -- Where the worker gets ready, the server answers, gives connections to a database as the
    -- extension keeps it and lets no other session hold a row, and unless `embed_batch` returns no
    -- vector at all for some texts: from its start on the worker reaches every job that waits.
    -- After some rounds of the main loop each of the oldest waiting jobs, as many as the rounds
    -- times the configured batch size, is done or in error, or has been purged since, whatever new
    -- jobs arrive in the meantime, with rising ids above those that there are, and known kinds.
    pub start_serves :
        (arguments : List String) (low started : ℕ) (rounds : List Round)
        → NoFaults env
        → NoLocks env
        → Answers embed_batch
        → ((conninfo : String) (s : Session) → machine.connect conninfo ≡ ok s → IsKept s.db)
        → start env machine arguments ≡ ready c g w
        → All (λ i. i < low) (ids w.session.db.jobs)
        → Arrive low rounds
        → let end =
            main_loop env c embed_batch provider rounds
              (record { cache = w; last_purge_check = started }) in
          All
            (λ i. IsFinal i end.cache.session.db.jobs)
            (first
              (length rounds * pos_part c.embedding.max_batch_size)
              (waiting w.session.db.jobs))
    start_serves arguments low started rounds n l answers kept k b a =
        main_loop_ends env c embed_batch provider n l answers low rounds
          (record { cache = w; last_purge_check = started }) (start-IsSteady arguments n kept k) b a
