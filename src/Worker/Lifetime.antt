-- ===== src/Worker/Lifetime.antt =====
-- The resources of the worker's process: what `main` of src/worker_main.cpp takes from llama.cpp and
-- libpq from the `LlamaBackendGuard` on, and gives back on each way out. C++ ends the locals of `main`
-- in the reverse order of their declarations.
use pgquarry.Base.{
  String, ℤ, ◌≡◌, refl, Bool, true, false, ◌&&◌, List, [], ◌∷◌, ◌++◌, str_eq, Result, ok, err,
  if◌then◌else◌, leb_ℤ, Bool-cases, inl, inr,
}
use pgquarry.Config.{AppConfig, EmbeddingConfig, GenerationConfig}
use pgquarry.Config.Load.{Document}
use pgquarry.Config.Validate.{FileSystem}
use pgquarry.Lifetime.{Call, backend_init, backend_free, IsReleased, nothing, around, backend}
use pgquarry.Llama.Init.{LlamaApi, LlamaProvider, destroy, dimensions, init_made, init-Encloses}
use pgquarry.Generate.Init.{
  destroy as destroy_generation, init_made as init_made_generation,
  init-Encloses as init_generation-Encloses,
}
use pgquarry.Provider.{Provider, make_embedding_provider, make_generation_provider}
use pgquarry.Store.Connection.{Env}
use pgquarry.Store.Handle.{PqApi, connect, destroy as destroy_store, connect-Encloses}
use pgquarry.Worker.Logger.{LoggerApi}
use pgquarry.Worker.{
  Machine, Started, stopped, checked_dimensions, with_generation, connected, initialised,
}

-- How the process goes on, and the calls that it makes until it ends.
abbrev pub Process : Type 0
Process = Started × List Call

-- An object that lives around the rest of `main`.
abbrev pub scope : List Call → Process → List Call → Process
scope before (s, inner) after = (s, before ++ inner ++ after)

-- `init` and then `dimensions()`.
abbrev embedding_dimensions : LlamaApi → Result (Unit {0}) × LlamaProvider × List Call → Result ℤ
embedding_dimensions llama (err e, p, calls) = err e
embedding_dimensions llama (ok _, p, calls) = ok (dimensions llama p)

abbrev made_embedding : LlamaApi → EmbeddingConfig → Result Provider → Result ℤ
made_embedding llama cfg (err e) = err e
made_embedding llama cfg (ok _) = embedding_dimensions llama (init_made llama cfg)

abbrev made_generation : LlamaApi → GenerationConfig → Result Provider → Result (Unit {0})
made_generation llama cfg (err e) = err e
made_generation llama cfg (ok _) = (init_made_generation llama cfg).0

-- What the start asks of llama.cpp and libpq, as the providers and the store answer it.
unfoldable pub machine_of :
    LoggerApi → (String → Result Document) → FileSystem → LlamaApi → PqApi → Machine
machine_of logger parse_file files llama pq = record {
  logger = logger;
  parse_file = parse_file;
  files = files;
  init_embedding = λ cfg. made_embedding llama cfg (make_embedding_provider cfg);
  init_generation = λ cfg. made_generation llama cfg (make_generation_provider cfg);
  connect = λ conninfo. (connect pq conninfo).0;
}

module _ (env : Env) (logger : LoggerApi) (parse_file : String → Result Document)
    (files : FileSystem) (llama : LlamaApi) (pq : PqApi) where
  abbrev machine : Machine
  machine = machine_of logger parse_file files llama pq

  -- From the declaration of the store on.
  unfoldable pub store_scope : AppConfig → Bool → Process
  store_scope cfg has_generation =
      let (r, conn, calls) = connect pq cfg.conninfo in
      scope calls (connected env machine cfg has_generation r, []) (destroy_store conn)

  abbrev generation_ready : AppConfig → Result (Unit {0}) → Process
  generation_ready cfg (err e) = (stopped 1, [])
  generation_ready cfg (ok _) = store_scope cfg true

  abbrev generation_made : AppConfig → Result Provider → Process
  generation_made cfg (err e) = (stopped 1, [])
  generation_made cfg (ok _) =
      let (r, p, calls) = init_made_generation llama cfg.generation in
      scope calls (generation_ready cfg r) (destroy_generation p)

  -- From the declaration of the generation provider on.
  unfoldable pub generation_scope : AppConfig → Process
  generation_scope cfg =
      if str_eq cfg.generation.model_path ""
      then store_scope cfg false
      else generation_made cfg (make_generation_provider cfg.generation)

  abbrev embedding_ready : AppConfig → LlamaProvider → Result (Unit {0}) → Process
  embedding_ready cfg p (err e) = (stopped 1, [])
  embedding_ready cfg p (ok _) =
      if leb_ℤ (dimensions llama p) cfg.embedding.dimensions
        && leb_ℤ cfg.embedding.dimensions (dimensions llama p)
      then generation_scope cfg
      else (stopped 1, [])

  abbrev embedding_made : AppConfig → Result Provider → Process
  embedding_made cfg (err e) = (stopped 1, [])
  embedding_made cfg (ok _) =
      let (r, p, calls) = init_made llama cfg.embedding in
      scope calls (embedding_ready cfg p r) (destroy p)

  -- From the guard on, with a configuration that is valid.
  unfoldable pub run_process : AppConfig → Process
  run_process cfg =
      scope (backend_init ∷ []) (embedding_made cfg (make_embedding_provider cfg.embedding))
        (backend_free ∷ [])

  store_scope-IsReleased : (cfg : AppConfig) (g : Bool) → IsReleased (store_scope cfg g).1
  unfolding store_scope
  store_scope-IsReleased cfg g = connect-Encloses pq cfg.conninfo [] nothing

  generation_ready-IsReleased :
      (cfg : AppConfig) (r : Result (Unit {0})) → IsReleased (generation_ready cfg r).1
  generation_ready-IsReleased cfg (err e) = nothing
  generation_ready-IsReleased cfg (ok u) = store_scope-IsReleased cfg true

  generation_made-IsReleased :
      (cfg : AppConfig) (r : Result Provider) → IsReleased (generation_made cfg r).1
  generation_made-IsReleased cfg (err e) = nothing
  generation_made-IsReleased cfg (ok p) =
      init_generation-Encloses llama cfg.generation _
        (generation_ready-IsReleased cfg (init_made_generation llama cfg.generation).0)

  generation_scope-IsReleased : (cfg : AppConfig) → IsReleased (generation_scope cfg).1
  unfolding generation_scope
  generation_scope-IsReleased cfg = elim (Bool-cases (str_eq cfg.generation.model_path "")) [
    | inl h ↦ rw h (store_scope-IsReleased cfg false)
    | inr h ↦ rw h (generation_made-IsReleased cfg (make_generation_provider cfg.generation))
  ]

  embedding_ready-IsReleased :
      (cfg : AppConfig) (p : LlamaProvider) (r : Result (Unit {0}))
      → IsReleased (embedding_ready cfg p r).1
  embedding_ready-IsReleased cfg p (err e) = nothing
  embedding_ready-IsReleased cfg p (ok u) =
      elim (Bool-cases (
        leb_ℤ (dimensions llama p) cfg.embedding.dimensions
        && leb_ℤ cfg.embedding.dimensions (dimensions llama p))) [
          | inl h ↦ rw h (generation_scope-IsReleased cfg)
          | inr h ↦ rw h nothing
        ]

  embedding_made-IsReleased :
      (cfg : AppConfig) (r : Result Provider) → IsReleased (embedding_made cfg r).1
  embedding_made-IsReleased cfg (err e) = nothing
  embedding_made-IsReleased cfg (ok u) =
      let (r, p, calls) = init_made llama cfg.embedding in
      init-Encloses llama cfg.embedding _ (embedding_ready-IsReleased cfg p r)

  -- On every way out of `main`, whatever llama.cpp, libpq and the server answer, the backend of
  -- llama.cpp is taken first and given back last, and in between each model, context and connection
  -- that was taken is given back exactly once, the last one taken first.
  pub run_process-IsReleased :
      (cfg : AppConfig)
      → IsReleased (run_process cfg).1
        × ((inner : List Call) × ((run_process cfg).1 ≡ backend_init ∷ inner ++ backend_free ∷ [])
            × IsReleased inner)
  unfolding run_process
  run_process-IsReleased cfg =
      let r = embedding_made-IsReleased cfg (make_embedding_provider cfg.embedding) in
      (around backend r, (_, refl, r))

  generation_scope-with_generation :
      (cfg : AppConfig) → (generation_scope cfg).0 ≡ with_generation env machine cfg
  unfolding generation_scope with_generation store_scope machine_of
  generation_scope-with_generation cfg = elim (Bool-cases (str_eq cfg.generation.model_path "")) [
    | inl h ↦ rw h refl
    | inr h ↦ rw h (of_made (make_generation_provider cfg.generation))
  ]
    where
      of_ready :
          (r : Result (Unit {0})) → (generation_ready cfg r).0 ≡ initialised env machine cfg r
      of_ready (err e) = refl
      of_ready (ok u) = refl

      of_made :
          (r : Result Provider)
          → (generation_made cfg r).0
            ≡ initialised env machine cfg (made_generation llama cfg.generation r)
      of_made (err e) = refl
      of_made (ok u) = of_ready (init_made_generation llama cfg.generation).0

  -- The process goes on exactly as `start` says, with the providers and the store as the machine: it
  -- stops with the same status, or gets ready with the same configuration and cache.
  pub run_process-checked_dimensions :
      (cfg : AppConfig)
      → (run_process cfg).0
        ≡ checked_dimensions env machine cfg (machine.init_embedding cfg.embedding)
  unfolding run_process checked_dimensions machine_of
  run_process-checked_dimensions cfg = of_made (make_embedding_provider cfg.embedding)
    where
      of_ready :
          (p : LlamaProvider) (calls : List Call) (r : Result (Unit {0}))
          → (embedding_ready cfg p r).0
            ≡ checked_dimensions env machine cfg (embedding_dimensions llama (r, p, calls))
      of_ready p calls (err e) = refl
      of_ready p calls (ok u) =
          elim (Bool-cases (
            leb_ℤ (dimensions llama p) cfg.embedding.dimensions
            && leb_ℤ cfg.embedding.dimensions (dimensions llama p))) [
              | inl h ↦ rw h (generation_scope-with_generation cfg)
              | inr h ↦ rw h refl
            ]

      of_made :
          (r : Result Provider)
          → (embedding_made cfg r).0
            ≡ checked_dimensions env machine cfg (made_embedding llama cfg.embedding r)
      of_made (err e) = refl
      of_made (ok u) = let (r, p, calls) = init_made llama cfg.embedding in of_ready p calls r
