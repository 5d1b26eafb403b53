-- ===== src/Examples/Resources.antt =====
-- Resources of a process, the size of a batch, and the statements of a sequence of writes.
use pgquarry.Base.{
  ℕ, ◌≤◌, ◌≡◌, refl, inl, arith, pos, true, false, some, none, List, [], ◌∷◌, ◌++◌, map, narrow, ok,
  replicate,
}
use pgquarry.Config.{default_embedding, EmbeddingConfig, TableMapping}
use pgquarry.Config.Load.Values.{to_document}
use pgquarry.Lifetime.{Call, backend_init, backend_free, IsReleased}
use pgquarry.Llama.{TokenizedText, Chunking, add_item, Backend}
use pgquarry.Llama.Capacity.{context_params_suffice, context_params_wrap}
use pgquarry.Llama.Chunks.{total}
use pgquarry.Llama.Init.{LlamaApi, make_provider, context_params}
use pgquarry.Store.Chosen.{WriteCall, vector, run_calls, executed, own_sql}
use pgquarry.Store.Cached.{sql_of_first, run_calls-first_sql, run_calls-own_sql}
use pgquarry.Store.Handle.{PqApi}
use pgquarry.Examples.Worked.{quiet_logger}
use pgquarry.Worker.Lifetime.{Process, run_process, run_process-IsReleased}
use pgquarry.Examples.Configured.{config, disk}
use pgquarry.Examples.Embedded.{backend}
use pgquarry.Examples.Queue.{server, session}

-- Models load, but no context is made for the second.
abbrev llama : LlamaApi
llama = record {
  supports_gpu = false;
  load_from_file = λ path n. some 1;
  get_vocab = λ m. 7;
  n_embd = λ m. pos 1024;
  chat_template = λ m. none;
  default_params = record {
    n_ctx = 512;
    n_batch = 2048;
    n_ubatch = 512;
    n_seq_max = 1;
    n_threads = 4;
    n_threads_batch = 4;
    embeddings = false;
  };
  init_from_model = λ m p. some 2;
}

abbrev pq : PqApi
pq = record {
  connectdb = λ conninfo. 3;
  is_ok = λ c. true;
  error_message = λ c. "";
  session = λ c. session;
}

abbrev whole_run : Process
whole_run = run_process server quiet_logger (λ path. ok (to_document config)) disk llama pq config

run_process-IsReleased_example :
    IsReleased whole_run.1
    × ((inner : List Call) × (whole_run.1 ≡ backend_init ∷ inner ++ backend_free ∷ [])
        × IsReleased inner)
run_process-IsReleased_example =
    run_process-IsReleased server quiet_logger (λ path. ok (to_document config)) disk llama pq
      config

abbrev item_of : ℕ → TokenizedText
item_of n = record { tokens = replicate n 5; original_index = 0; ok = true }

context_params_suffice_example :
    let p = context_params llama (make_provider default_embedding) in
    (2 ≤ p.n_seq_max)
    × (total (item_of 3 ∷ item_of 4 ∷ []) ≤ p.n_batch)
    × (narrow (pos p.n_batch) ≡ pos p.n_batch)
    × (p.n_ubatch ≡ p.n_batch)
context_params_suffice_example =
    context_params_suffice llama default_embedding 512 8 refl refl (omega arith) (omega arith)
      (omega arith) (omega arith) (item_of 3 ∷ item_of 4 ∷ []) (omega arith)
      (omega arith, (omega arith, tt))

-- 3 times 1431655766 is 2 beyond 2^32.
abbrev huge : EmbeddingConfig
huge = record default_embedding { n_ctx = pos 3; max_batch_size = pos 1431655766 }

abbrev small : Backend
small = record backend { n_batch = (context_params llama (make_provider huge)).n_batch }

abbrev no_chunk : Chunking
no_chunk = record { chunk = []; chunk_tokens = 0; results = [] ∷ []; encoded = [] }

context_params_wrap_example : add_item small (item_of 3) no_chunk ≡ no_chunk
context_params_wrap_example =
    context_params_wrap llama huge 3 1431655766 refl refl (omega arith) (omega arith) (omega arith)
      (omega arith) small (omega arith) (item_of 3) refl no_chunk

abbrev docs : TableMapping
docs = record {
  source = "docs";
  job_type = "embed";
  source_column = "body";
  id_column = "id";
  target_table = "docs";
  target_column = "embedding";
  target_id_column = "id";
}

-- The same source and kind, registered anew with another target.
abbrev moved : TableMapping
moved = record docs { target_column = "embedding_v2" }

abbrev calls : List WriteCall
calls = vector docs (pos 1) (5 ∷ []) ∷ vector moved (pos 2) (6 ∷ []) ∷ []

run_calls-first_sql_example :
    (run_calls server calls session).db.writes
    ≡ session.db.writes ++ map (λ c. executed server (sql_of_first c calls) c) calls
run_calls-first_sql_example =
    run_calls-first_sql server calls session (λ n. refl) refl (inl refl, (inl refl, tt))

abbrev settled_calls : List WriteCall
settled_calls = vector docs (pos 1) (5 ∷ []) ∷ vector docs (pos 2) (6 ∷ []) ∷ []

run_calls-own_sql_example :
    (run_calls server settled_calls session).db.writes
    ≡ session.db.writes ++ map (λ c. executed server (own_sql c) c) settled_calls
run_calls-own_sql_example =
    run_calls-own_sql server (λ source kind. own_sql (vector docs (pos 1) [])) settled_calls session
      (λ n. refl) refl (inl refl, (inl refl, tt)) (refl, (refl, tt))
