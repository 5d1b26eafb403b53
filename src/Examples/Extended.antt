-- ===== src/Examples/Extended.antt =====
-- Registrations, the jobs of a change, and calls that poll.
use pgquarry.Base.{ℕ, pos, ◌≡◌, ◌≤◌, ◌*◌, refl, none, some, [], ◌∷◌, true, arith, str_eq}
use pgquarry.Extension.{Catalog, WatchArgs, WatchGenerateArgs, watch, watch_both, watched_as}
use pgquarry.Extension.Changes.{Change, Casts, change_row}
use pgquarry.Extension.Registered.{WatchEnds, watch-watched_mapping}
use pgquarry.Extension.Enqueued.{Enqueues}
use pgquarry.Extension.Combined.{watch_generate-Enqueues, watch_after-Enqueues}
use pgquarry.Extension.Polling.{
  Polls, embed_sync, still_polling, EndsIn, embed_sync_ends, embed_sync_polls_on,
}
use pgquarry.Examples.Queue.{db}

abbrev catalog : Catalog
catalog = record { db = db; triggers = []; next_id = 5 }

abbrev docs_args : WatchArgs
docs_args = record {
  source = "tickets";
  embed_column = "body";
  id_column = "id";
  target_table = none;
  target_column = some "embedding";
  target_id_column = none;
}

watch-watched_mapping_example :
    WatchEnds docs_args catalog "tickets" "embed" (watch docs_args catalog)
watch-watched_mapping_example = watch-watched_mapping docs_args catalog "tickets" "embed"

abbrev tickets : WatchGenerateArgs
tickets = record {
  source = "tickets";
  embed_column = "body";
  embed_target_column = some "embedding";
  prompt_column = "prompt";
  generate_target_column = some "summary";
  id_column = "id";
  embed_target_table = none;
  embed_target_id_column = none;
  generate_target_table = none;
  generate_target_id_column = none;
}

abbrev casts : Casts
casts = record {
  to_bigint = λ t. some (pos 7);
  bad_bigint = λ t. "invalid input syntax for type bigint";
  null_text = "null value in column input_text";
  before = λ a b. str_eq a "tickets_pgquarry_embed";
}

abbrev inserted : Change
inserted = record {
  now = 100;
  table = "tickets";
  is_insert = true;
  columns = [];
  new_row = λ column. some "text";
}

watch_generate-Enqueues_example :
    let c' = watch_both tickets "embedding" "summary" catalog in
    Enqueues casts inserted
      (change_row casts inserted c')
      c'
      (("embed", "text", some (pos 7)) ∷ ("generate", "text", some (pos 7)) ∷ [])
watch_generate-Enqueues_example =
    watch_generate-Enqueues casts inserted tickets catalog "embedding" "summary" (pos 7) "text" refl
      refl tt "text" (record { id_text = "text"; has_id = refl; is_bigint = refl; has_text = refl })
      (record { id_text = "text"; has_id = refl; is_bigint = refl; has_text = refl })

watch_after-Enqueues_example :
    let c' = watched_as docs_args "embedding" (watch_both tickets "embedding" "summary" catalog) in
    Enqueues casts inserted (change_row casts inserted c') c' (
      ("embed", "text", some (pos 7))
      ∷ ("embed", "text", some (pos 7))
      ∷ ("generate", "text", some (pos 7))
      ∷ [])
watch_after-Enqueues_example =
    watch_after-Enqueues casts inserted tickets catalog "embedding" "summary" (pos 7) "text" refl
      refl tt docs_args "embedding" "text"
      (record { id_text = "text"; has_id = refl; is_bigint = refl; has_text = refl })
      (record { id_text = "text"; has_id = refl; is_bigint = refl; has_text = refl }) refl

-- The worker is not running.
abbrev unanswered : Polls
unanswered = record {
  seen = λ n. none;
  elapsed = λ n. n * 50;
  print_id = λ i. "5";
  print_timeout = λ t. "5000";
}

embed_sync_ends_example :
    (k : ℕ) × (k ≤ 100)
    × EndsIn unanswered "embed_sync"
        (λ r. r.result)
        catalog.next_id
        (pos 5000)
        k
        (embed_sync unanswered 101 100 "text" (some (pos 5000)) catalog).0
embed_sync_ends_example =
    embed_sync_ends unanswered 100 101 100 "text" (pos 5000) catalog (omega arith) (omega arith)

embed_sync_polls_on_example : (embed_sync unanswered 1000 100 "text" none catalog).0 ≡ still_polling
embed_sync_polls_on_example = embed_sync_polls_on unanswered 1000 100 "text" catalog (λ n. tt)
