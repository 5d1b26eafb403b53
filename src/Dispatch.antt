-- ===== src/Dispatch.antt =====
-- src/job_dispatcher.cpp: the jobs of a claimed batch, given to the providers and written back. The
-- providers are parameters: what they return or throw for their arguments.
pub mod Honest
pub mod Rounds
pub mod Batch
pub mod Settled
pub mod Verdict
pub mod Outcome
pub mod Embedding
use Prim.Native.String.{◌++◌}
use pgquarry.Base.{
  ℕ, suc, ◌+◌, String, ℤ, Bool, true, false, not, ◌&&◌, Option, none, some, List, [], ◌∷◌, map,
  str_eq, Result, ok, err, Exec, length, ◌==◌, if◌then◌else◌, value_or,
}
use pgquarry.Config.{TableMapping}
use pgquarry.Store.{
  ClaimedJob, write_back, write_back_text, write_ad_hoc_result, write_ad_hoc_result_text, mark_done,
  mark_error,
}
use pgquarry.Store.Connection.{Env, Session}
use pgquarry.Store.Literal.{Float}
use pgquarry.Watch.{WatchCache, find}

abbrev pub is_empty {ℓ} : {A : Type ℓ} → List A → Bool
is_empty [] = true
is_empty (x ∷ xs) = false

-- What has been written so far, and the state of the worker.
abbrev pub Written : Type 0
Written = ℕ × WatchCache

unfoldable pub missing : String → String → String
missing kind source =
    "no "
    ++ (kind
        ++ (" watch registered for '"
            ++ (source ++ "' — was it removed since this job was enqueued?")))

module _ (env : Env) where
  abbrev on_store : (Session → Session) → WatchCache → WatchCache
  on_store f w = record w { session = f w.session }

  unfoldable pub fail_job : ClaimedJob → String → WatchCache → WatchCache
  fail_job job message = on_store (mark_error env job.id message)

  -- The `try` and the `catch` of `finish_write`.
  unfoldable pub finished :
      ClaimedJob → ℕ → Bool → Result (Unit {0}) → Session → WatchCache → Written
  finished job written mark_done_after (ok _) s w =
      (suc written, record w { session = if mark_done_after then mark_done env job.id s else s })
  finished job written mark_done_after (err e) s w =
      (written, record w { session = mark_error env job.id e s })

  unfoldable pub finish_write :
      ClaimedJob → ℕ → Bool → Exec Session (Unit {0}) → WatchCache → Written
  unfolding finished
  finish_write job written mark_done_after write_fn w =
      let (r, s) = write_fn w.session in finished job written mark_done_after r s w

  -- `for (const auto& job : jobs) store.mark_error(job.id, …)`.
  unfoldable pub fail_all : List ClaimedJob → String → WatchCache → WatchCache
  fail_all [] message w = w
  fail_all (job ∷ jobs) message w = fail_all jobs message (fail_job job message w)

  -- `*job.source_id`, which is not defined where the job has none.
  abbrev id_of : ClaimedJob → ℤ
  id_of job = value_or job.source_id env.unset_id

  -- The lookup of the mapping and what follows it, for a job with a source table.
  unfoldable pub write_mapped :
      ClaimedJob
      → String
      → String
      → (TableMapping → Exec Session (Unit {0}))
      → ℕ
      → WatchCache
      → Written
  write_mapped job kind source write written w =
      let (found, w') = find env source kind w in
      elim found [
        | none ↦ (written, fail_job job (missing kind source) w')
        | some m ↦ finish_write job written true (write m) w'
      ]

  -- The end of a round of either loop, where there is a result to write.
  unfoldable pub deliver :
      ClaimedJob
      → String
      → Exec Session (Unit {0})
      → (TableMapping → Exec Session (Unit {0}))
      → ℕ
      → WatchCache
      → Written
  deliver job kind ad_hoc mapped written w = elim job.source_table [
    | none ↦ finish_write job written false ad_hoc w
    | some source ↦ write_mapped job kind source mapped written w
  ]

  -- A round of the loop of `dispatch_embed_jobs`.
  unfoldable pub embed_job : ClaimedJob → List Float → ℕ → WatchCache → Written
  embed_job job [] written w =
      (written, fail_job job "no embedding produced (see worker log for tokenization details)" w)
  embed_job job (x ∷ xs) written w =
      deliver job "embed" (write_ad_hoc_result env job.id (x ∷ xs))
        (λ m. write_back env m (id_of job) (x ∷ xs)) written w

  unfoldable pub embed_jobs : List ClaimedJob → List (List Float) → ℕ → WatchCache → Written
  embed_jobs jobs [] written w = (written, w)
  embed_jobs [] (vector ∷ vectors) written w = (written, w)
  embed_jobs (job ∷ jobs) (vector ∷ vectors) written w =
      let (written', w') = embed_job job vector written w in embed_jobs jobs vectors written' w'

  -- What follows the call of `embed_batch`.
  unfoldable pub embedded : List ClaimedJob → Result (List (List Float)) → WatchCache → Written
  embedded jobs (err e) w = (0, fail_all jobs e w)
  embedded jobs (ok vectors) w =
      if not (is_empty vectors) && not (length vectors == length jobs)
      then (0, fail_all jobs "embed_batch size mismatch" w)
      else embed_jobs jobs vectors 0 w

  unfoldable pub dispatch_embed_jobs :
      (List String → Result (List (List Float))) → List ClaimedJob → WatchCache → Written
  dispatch_embed_jobs embed_batch [] w = (0, w)
  dispatch_embed_jobs embed_batch (job ∷ jobs) w =
      embedded (job ∷ jobs) (embed_batch (map (λ j. j.input_text) (job ∷ jobs))) w

  -- What follows the call of `generate` for one job.
  unfoldable pub generated : ClaimedJob → Result String → ℕ → WatchCache → Written
  generated job (err e) written w = (written, fail_job job e w)
  generated job (ok text) written w =
      if str_eq text ""
      then (written, fail_job job "no text generated (see worker log for details)" w)
      else deliver job "generate" (write_ad_hoc_result_text env job.id text)
          (λ m. write_back_text env m (id_of job) text) written w

  -- A round of the loop of `dispatch_generate_jobs`; there may be no provider.
  unfoldable pub generate_job :
      Option (String → ℤ → Result String) → ℤ → ClaimedJob → ℕ → WatchCache → Written
  generate_job none default_max_tokens job written w =
      (written, fail_job job "[worker] generation_model_path is not set in pgquarry.toml" w)
  generate_job (some generate) default_max_tokens job written w =
      generated job (generate job.input_text (value_or job.max_tokens default_max_tokens)) written w

  unfoldable pub generate_jobs :
      Option (String → ℤ → Result String) → ℤ → List ClaimedJob → ℕ → WatchCache → Written
  generate_jobs provider default_max_tokens [] written w = (written, w)
  generate_jobs provider default_max_tokens (job ∷ jobs) written w =
      let (written', w') = generate_job provider default_max_tokens job written w in
      generate_jobs provider default_max_tokens jobs written' w'

  unfoldable pub dispatch_generate_jobs :
      Option (String → ℤ → Result String) → ℤ → List ClaimedJob → WatchCache → Written
  dispatch_generate_jobs provider default_max_tokens jobs w =
      generate_jobs provider default_max_tokens jobs 0 w
