-- ===== src/Worker/Start.antt =====
-- What has been checked when the worker is ready.
use pgquarry.Base.{
  String, ℤ, pos, negsuc, ◌≡◌, inl, inr, refl, subst, ap, Bool, true, false, not, ◌&&◌, List, [],
  ◌∷◌, arith, str_eq, leb_ℤ, Bool-cases, Result, ok, err,
}
use pgquarry.Config.{AppConfig}
use pgquarry.Config.Validate.{validate}
use pgquarry.Config.Validate.Accepts.{IsRunnable, validate_accepts}
use pgquarry.Config.Load.{load_config}
use pgquarry.Config.Load.Values.{HasInts, load_config-HasInts}
use pgquarry.Store.Connection.{Env, Session}
use pgquarry.Watch.{WatchCache}
use pgquarry.Worker.{
  Arguments, exits, runs, parse_arguments, Machine, ready, no_errors, loaded_mappings, connected,
  initialised, with_generation, checked_dimensions, logged, configured, start,
}
use pgquarry.Worker.Logger.{LoggerEnd, returned, terminated, init_logger, unset_logging}

no_errors-nil : (es : List String) → no_errors es ≡ true → es ≡ []
no_errors-nil [] h = refl
no_errors-nil (e ∷ es) h = cc

leb_ℤ-antisym : (a b : ℤ) → leb_ℤ a b && leb_ℤ b a ≡ true → a ≡ b
leb_ℤ-antisym (pos m) (pos n) h = ap pos (ground arith)
leb_ℤ-antisym (pos m) (negsuc n) h = absurd (ground arith)
leb_ℤ-antisym (negsuc m) (pos n) h = absurd (ground arith)
leb_ℤ-antisym (negsuc m) (negsuc n) h = ap negsuc (ground arith)

module _ (env : Env) (machine : Machine) (c : AppConfig) (g : Bool) (w : WatchCache) where
  loaded_mappings-ready :
      (d : AppConfig) (h : Bool) (r : Result (Unit {0}) × WatchCache)
      → loaded_mappings env machine d h r ≡ ready c g w
      → (d ≡ c) × (h ≡ g)
  unfolding loaded_mappings
  loaded_mappings-ready d h (err e, v) k = cc
  loaded_mappings-ready d h (ok _, v) k = (cc, cc)

  connected-ready :
      (d : AppConfig) (h : Bool) (r : Result Session)
      → connected env machine d h r ≡ ready c g w
      → (d ≡ c) × (h ≡ g)
  unfolding connected
  connected-ready d h (err e) k = cc
  connected-ready d h (ok s) k = loaded_mappings-ready d h _ k

  initialised-ready :
      (d : AppConfig) (r : Result (Unit {0}))
      → initialised env machine d r ≡ ready c g w
      → (d ≡ c) × (true ≡ g)
  initialised-ready d (err e) k = cc
  initialised-ready d (ok _) k = connected-ready d true (machine.connect d.conninfo) k

  with_generation-ready :
      (d : AppConfig)
      → with_generation env machine d ≡ ready c g w
      → (d ≡ c) × (not (str_eq d.generation.model_path "") ≡ g)
  unfolding with_generation
  with_generation-ready d k = elim (Bool-cases (str_eq d.generation.model_path "")) [
    | inl e ↦ rw e (connected-ready d false (machine.connect d.conninfo) (rw e at k))
    | inr e ↦ rw e (initialised-ready d (machine.init_generation d.generation) (rw e at k))
  ]

  -- The worker is set up as it is configured.
  abbrev IsSetUp : AppConfig → Result ℤ → Type 0
  IsSetUp d dimensions =
      (d ≡ c)
      × (dimensions ≡ ok d.embedding.dimensions)
      × (not (str_eq d.generation.model_path "") ≡ g)

  checked_dimensions-ready :
      (d : AppConfig) (r : Result ℤ)
      → checked_dimensions env machine d r ≡ ready c g w
      → IsSetUp d r
  unfolding checked_dimensions
  checked_dimensions-ready d (err e) k = cc
  checked_dimensions-ready d (ok n) k =
      elim (Bool-cases (leb_ℤ n d.embedding.dimensions && leb_ℤ d.embedding.dimensions n)) [
        | inl h ↦
            let (e, f) = with_generation-ready d (rw h at k) in
            (e, ap ok (leb_ℤ-antisym n d.embedding.dimensions h), f)
        | inr h ↦ absurd (ground (arith, h, k))
      ]

  logged-ready :
      (d : AppConfig) (end : LoggerEnd)
      → logged env machine d end ≡ ready c g w
      → (validate machine.files d ≡ []) × IsSetUp d (machine.init_embedding d.embedding)
  unfolding logged
  logged-ready d (terminated e) k = cc
  logged-ready d returned k = elim (Bool-cases (no_errors (validate machine.files d))) [
    | inl h ↦ (
      no_errors-nil (validate machine.files d) h,
      checked_dimensions-ready d (machine.init_embedding d.embedding) (rw h at k),
    )
    | inr h ↦ absurd (ground (arith, h, k))
  ]

  configured-ready :
      (r : Result AppConfig)
      → configured env machine r ≡ ready c g w
      → (d : AppConfig) × (r ≡ ok d)
        × (validate machine.files d ≡ [])
        × IsSetUp d (machine.init_embedding d.embedding)
  unfolding configured
  configured-ready (err e) k = cc
  configured-ready (ok d) k =
      let (v, s) = logged-ready d (init_logger machine.logger d.logging unset_logging).0 k in
      (d, refl, v, s)

  -- What holds of the configuration with which the worker is ready.
  pub record IsChecked (path : String) (d : AppConfig) : Type 0 where
    pub loaded : load_config machine.parse_file path ≡ ok d
    pub runnable : IsRunnable machine.files d
    pub ints : HasInts d
    pub dimensions : machine.init_embedding d.embedding ≡ ok d.embedding.dimensions
    pub generation : not (str_eq d.generation.model_path "") ≡ g

  path-IsChecked :
      (path : String)
      → configured env machine (load_config machine.parse_file path) ≡ ready c g w
      → IsChecked path c
  path-IsChecked path k =
      let (d, l, v, (e, f, h)) = configured-ready (load_config machine.parse_file path) k in
      subst (IsChecked path) e (record {
        loaded = l;
        runnable = (validate_accepts machine.files d).0 v;
        ints = load_config-HasInts machine.parse_file path d l;
        dimensions = f;
        generation = h;
      })

  -- The worker gets ready only with a configuration that was loaded from the file that the arguments
  -- name, that is runnable, whose numbers are values of `int`, and whose dimensions are those of the
  -- embedding model. It has a generation provider exactly where a generation model is configured.
  pub start-IsChecked :
      (arguments : List String)
      → start env machine arguments ≡ ready c g w
      → (path : String) × (parse_arguments "" arguments ≡ runs path) × IsChecked path c
  unfolding start
  start-IsChecked arguments k = of_arguments (parse_arguments "" arguments) refl
    where
      of_arguments :
          (a : Arguments)
          → parse_arguments "" arguments ≡ a
          → (path : String) × (parse_arguments "" arguments ≡ runs path) × IsChecked path c
      of_arguments (exits status) e = absurd (ground (arith, e, k))
      of_arguments (runs path) e = (path, e, path-IsChecked path (rw (start, e) at k))
