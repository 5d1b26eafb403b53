-- ===== src/Examples/Queue.antt =====
-- Runs of the queue, of the store, of the cache and of the dispatcher.
use pgquarry.Base.{
  ℕ, ◌≡◌, ◌≤◌, ◌+◌, ◌-◌, inl, inr, refl, String, ℤ, pos, true, false, Option, none, some, List, [],
  ◌∷◌, All, map, arith, Result, ok, if◌then◌else◌,
}
use mathlib.Core.Option
use mathlib.Core.List.{Permᴰ}
use pgquarry.Job.{JobType, embed, generate}
use pgquarry.Database.{
  Status, pending, done, JobRow, WatchedRow, Database, claim_pending_rows, select_pending, contains,
  purgeable, purge_rows,
}
use pgquarry.Database.Rows.{row}
use pgquarry.Database.Claims.{Queue, Step, Steps, AreExclusive, claims-AreExclusive}
use pgquarry.Store.{ClaimedJob, claim_pending, purge_done}
use pgquarry.Store.Connection.{Env, Session}
use pgquarry.Store.Literal.{Float}
use pgquarry.Store.Claim.{returned_ids, taken, processing_since, claim_pending-first}
use pgquarry.Store.Purge.{kept, Purges, purged, log_entry, purge_done-kept, purge_done_logs}
use pgquarry.Dispatch.Rounds.{produced}
use pgquarry.Watch.{find_key, WatchCache, find, begin_batch}
use pgquarry.Watch.Refines.{watched_mapping, InSync}
use pgquarry.Watch.Lookup.{find-refines, finds, one_reload_per_batch, failed_refresh_forgets}
use pgquarry.Dispatch.{dispatch_embed_jobs, dispatch_generate_jobs}
use pgquarry.Dispatch.Batch.{Distinct, BatchFrame, HonestAt, dispatch_generate_jobs_honest}
use pgquarry.Dispatch.Settled.{HasRow}
use pgquarry.Dispatch.Verdict.{generate_verdict}
use pgquarry.Dispatch.Outcome.{
  EndsAs, AllEmbedded, done_count, generated_count, dispatch_generate_jobs_settle,
}
use pgquarry.Dispatch.Embedding.{
  BatchFails, dispatch_embed_jobs_fails, empty_result_strands, dispatch_embed_jobs_settle,
}

-- A server that answers everything.
abbrev pub server : Env
server = record {
  fault = λ n. none;
  now = λ n. n + 100;
  locked = λ n i. false;
  rank = λ n i. 10 - i;
  interval_length = λ text. some 10;
  unset_id = pos 0;
  bad_interval = "invalid input syntax for type interval";
  print_id = λ n. "7";
  print_float = λ x. "0.5";
}

-- A server on which every statement fails.
abbrev down : Env
down = record server { fault = λ n. some "connection lost" }

abbrev pub job_row : ℕ → Status → Option String → String → JobRow
job_row i status source kind = record {
  id = i;
  status = status;
  job_type = kind;
  source_table = source;
  source_id = some (pos 5);
  source_column = some "body";
  input_text = "text";
  max_tokens = none;
  result = none;
  result_text = none;
  error_text = none;
  created_at = 1;
  updated_at = 1;
}

abbrev watched_row : WatchedRow
watched_row = record {
  source_table = "docs";
  job_type = "embed";
  id_column = "id";
  source_column = "body";
  target_table = "docs";
  target_column = "embedding";
  target_id_column = "id";
}

abbrev pub table : List JobRow
table =
    job_row 1 done none "embed"
    ∷ job_row 2 pending (some "docs") "embed"
    ∷ job_row 3 pending none "embed"
    ∷ job_row 4 pending none "generate"
    ∷ []

abbrev pub db : Database
db = record { jobs = table; watched = watched_row ∷ []; writes = []; notified = [] }

abbrev pub session : Session
session = record { db = db; sent = 0; sql_cache = []; purge_log = [] }

abbrev pub cache : WatchCache
cache = record { session = session; by_key = []; refreshed_this_batch = false }

pub cache-InSync : InSync cache
unfolding find_key
cache-InSync = record { hit = λ source kind m k e. cc; miss = λ source kind k r e. cc }

abbrev pub claimed : ℕ → Option String → JobType → ClaimedJob
claimed i source kind = record {
  id = i;
  source_table = source;
  source_id = some (pos 5);
  source_column = some "body";
  input_text = "text";
  job_type = kind;
  max_tokens = none;
}

-- One job of a watched table and an ad hoc one.
abbrev pub batch : List ClaimedJob
batch = claimed 2 (some "docs") embed ∷ claimed 3 none embed ∷ []

abbrev vectors : List (List Float)
vectors = (1 ∷ 2 ∷ []) ∷ [] ∷ []

abbrev pub prompts : List ClaimedJob
prompts = claimed 4 none generate ∷ []

abbrev pub provider : Option (String → ℤ → Result String)
provider = some (λ prompt n. ok "answer")

batch-Distinct : Distinct batch
batch-Distinct = (((λ e. omega arith), tt), (tt, tt))

batch_rows : All (λ job. HasRow job cache.session) batch
unfolding row
batch_rows =
    ((job_row 2 pending (some "docs") "embed", refl), ((job_row 3 pending none "embed", refl), tt))

prompts_rows : All (λ job. HasRow job cache.session) prompts
unfolding row
prompts_rows = ((job_row 4 pending none "generate", refl), tt)

dispatch_embed_jobs_settle_example :
    AllEmbedded
      (watched_row ∷ [])
      batch
      vectors
      (dispatch_embed_jobs server (λ texts. ok vectors) batch cache).1.session
    × ((dispatch_embed_jobs server (λ texts. ok vectors) batch cache).0
        ≡ done_count (watched_row ∷ []) batch vectors)
dispatch_embed_jobs_settle_example =
    dispatch_embed_jobs_settle server (λ texts. ok vectors) batch vectors cache (λ n. refl)
      (inl refl, tt) cache-InSync batch-Distinct batch_rows refl refl

dispatch_generate_jobs_settle_example :
    All
      (λ job.
        EndsAs job
          (generate_verdict (watched_row ∷ []) provider (pos 128) job)
          (dispatch_generate_jobs server provider (pos 128) prompts cache).1.session)
      prompts
    × ((dispatch_generate_jobs server provider (pos 128) prompts cache).0
        ≡ generated_count (watched_row ∷ []) provider (pos 128) prompts)
dispatch_generate_jobs_settle_example =
    dispatch_generate_jobs_settle server provider (pos 128) prompts cache (λ n. refl) (inl refl, tt)
      cache-InSync (tt, tt) prompts_rows

dispatch_generate_jobs_honest_example :
    BatchFrame prompts session
      (dispatch_generate_jobs down provider (pos 128) prompts cache).1.session
    × All
        (λ job.
          HonestAt down
            (λ r. r.result_text)
            job
            (produced provider (pos 128) job)
            session
            (dispatch_generate_jobs down provider (pos 128) prompts cache).1.session)
        prompts
dispatch_generate_jobs_honest_example =
    dispatch_generate_jobs_honest down provider (pos 128) prompts cache (tt, tt)

dispatch_embed_jobs_fails_example :
    All
      (λ job.
        EndsAs job
          (some "embed_batch size mismatch")
          (dispatch_embed_jobs server (λ texts. ok ([] ∷ [])) batch cache).1.session)
      batch
    × ((dispatch_embed_jobs server (λ texts. ok ([] ∷ [])) batch cache).0 ≡ 0)
dispatch_embed_jobs_fails_example =
    dispatch_embed_jobs_fails server (λ texts. ok ([] ∷ [])) batch "embed_batch size mismatch" cache
      (λ n. refl) batch-Distinct batch_rows (BatchFails.mismatch [] [] (λ e. omega arith))

empty_result_strands_example : dispatch_embed_jobs server (λ texts. ok []) batch cache ≡ (0, cache)
empty_result_strands_example =
    empty_result_strands server (λ texts. ok []) (claimed 2 (some "docs") embed)
      (claimed 3 none embed ∷ []) cache refl

claim_pending-first_example :
    ((ids : List ℕ) × (returned_ids (claim_pending server 2 session).0 ≡ some ids)
      × Permᴰ ids (taken server 2 session))
    × ((i : ℕ)
        → row i (claim_pending server 2 session).1.db.jobs
          ≡ Option.map
              (λ r. if contains (taken server 2 session) r.id then processing_since 100 r else r)
              (row i table))
claim_pending-first_example =
    claim_pending-first server 2 session refl
      (
        (omega arith, (omega arith, (omega arith, tt))),
        ((omega arith, (omega arith, tt)), ((omega arith, tt), (tt, tt))),
      )
      (inl refl, (inl refl, (inl refl, (inr refl, tt))))

-- Two claims with a purge between them.
abbrev q0 : Queue
q0 = record { db = db; next_id = 5 }

abbrev q1 : Queue
q1 = record q0 { db = (claim_pending_rows (λ i. i) (λ i. false) 1 100 db).0 }

abbrev q2 : Queue
q2 = record q1 { db = purge_rows 10 101 q1.db }

abbrev q3 : Queue
q3 = record q2 { db = (claim_pending_rows (λ i. i) (λ i. false) 5 102 q2.db).0 }

abbrev takes : List (List ℕ)
takes =
    select_pending (λ i. false) 1 q0.db.jobs ∷ [] ∷ select_pending (λ i. false) 5 q2.db.jobs ∷ []

claims-AreExclusive_example : AreExclusive takes
claims-AreExclusive_example =
    claims-AreExclusive q0 q3 takes (omega arith, (omega arith, (omega arith, (omega arith, tt))))
      (Steps.go q0 q1 q3 _ _ (Step.claims q0 (λ i. i) (λ i. false) 1 100) (
        Steps.go q1 q2 q3 _ _ (Step.purges q1 10 101)
          (Steps.go q2 q3 q3 _ _ (Step.claims q2 (λ i. i) (λ i. false) 5 102) (Steps.stay q3))))

purge_done-kept_example :
    (n : ℕ) × ((purge_done server "10 s" false session).0 ≡ ok n)
    × Purges 10 100 table (purge_done server "10 s" false session).1.db.jobs n
purge_done-kept_example = purge_done-kept server "10 s" session 10 refl refl

purge_done_logs_example :
    ((purge_done server "10 s" true session).1.db.jobs ≡ kept 10 101 table)
    × ((purge_done server "10 s" true session).1.purge_log ≡ map log_entry (purged 10 100 table))
    × All (λ r. purgeable 10 101 r ≡ true) (purged 10 100 table)
purge_done_logs_example = purge_done_logs server "10 s" session 10 refl refl refl (omega arith)

find-refines_example :
    (find server "docs" "embed" cache).0 ≡ watched_mapping "docs" "embed" (watched_row ∷ [])
find-refines_example =
    find-refines server "docs" "embed" cache (λ n. refl) (inl refl, tt) (inl refl) cache-InSync

abbrev queries : List (String × String)
queries = ("docs", "embed") ∷ ("notes", "embed") ∷ ("docs", "generate") ∷ []

one_reload_per_batch_example : (finds server queries (begin_batch server cache)).session.sent ≤ 1
one_reload_per_batch_example = one_reload_per_batch server queries cache

failed_refresh_forgets_example :
    (find down "docs" "embed" (finds down queries (find down "notes" "embed" cache).1)).0 ≡ none
unfolding find_key
failed_refresh_forgets_example =
    failed_refresh_forgets down "notes" "embed" "docs" "embed" "connection lost" queries cache refl
      refl refl
