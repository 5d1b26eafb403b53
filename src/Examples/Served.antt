-- ===== src/Examples/Served.antt =====
-- Rounds of the main loop, from the claim to the end of the jobs.
use pgquarry.Base.{
  ◌≡◌, String, ok, subst, ◌<◌, ◌*◌, refl, inl, inr, arith, none, some, ◌==◌, if◌then◌else◌, List,
  [], ◌∷◌, All, length, true, false,
}
use pgquarry.Database.{pending}
use pgquarry.Store.Claim.{first, ids}
use pgquarry.Watch.{load}
use pgquarry.Watch.Refines.{load_session}
use pgquarry.Worker.Served.{IsKept, start_serves}
use pgquarry.Worker.{Round, round, main_loop, process}
use pgquarry.Worker.Honest.{HonestRound, process_honest}
use pgquarry.Store.{ClaimedJob}
use pgquarry.Store.Connection.{Env, Session}
use pgquarry.Dispatch.Batch.{Distinct}
use pgquarry.Job.{embed, generate}
use pgquarry.Worker.Backlog.{IsFinal, waiting}
use pgquarry.Worker.Batches.{Answers}
use pgquarry.Worker.Arrivals.{Arrive}
use pgquarry.Worker.Drained.{main_loop_ends}
use pgquarry.Worker.Settled.{round-Advances}
use pgquarry.Worker.Steady.{IsSteady, Advances}
use pgquarry.Examples.Configured.{config}
use pgquarry.Examples.Queue.{
  session, server, cache, cache-InSync, table, job_row, provider, claimed,
}
use pgquarry.Examples.Worked.{worker, embed_batch, machine, arguments, unloaded, start_run}

cache-IsSteady : IsSteady cache
cache-IsSteady = record {
  ascending = (
    (omega arith, (omega arith, (omega arith, tt))),
    ((omega arith, (omega arith, tt)), ((omega arith, tt), (tt, tt))),
  );
  known = (inl refl, (inl refl, (inl refl, (inr refl, tt))));
  kinds = (inl refl, tt);
  in_sync = cache-InSync;
}

embed_batch-Answers : Answers embed_batch
embed_batch-Answers t ts e = cc

round-Advances_example :
    Advances 8 cache (round server config embed_batch provider true 95 worker).cache
round-Advances_example =
    round-Advances server config embed_batch provider (λ n. refl) (λ n. refl) embed_batch-Answers
      true 95 worker cache-IsSteady

-- A job arrives before the second round.
abbrev rounds : List Round
rounds =
    record { arrivals = []; embed_first = true; now = 95 }
    ∷ record { arrivals = job_row 5 pending none "embed" ∷ []; embed_first = false; now = 160 }
    ∷ []

rounds-Arrive : Arrive 5 rounds
rounds-Arrive = (
  5,
  record { above = tt; below = tt; rises = omega arith; ascending = tt; known = tt },
  (
    6,
    record {
      above = (omega arith, tt);
      below = (omega arith, tt);
      rises = omega arith;
      ascending = (tt, tt);
      known = (inl refl, tt);
    },
    tt,
  ),
)

main_loop_ends_example :
    All
      (λ i.
        IsFinal i
          (main_loop server config embed_batch provider rounds worker).cache.session.db.jobs)
      (first (length rounds * 8) (waiting table))
main_loop_ends_example =
    main_loop_ends server config embed_batch provider (λ n. refl) (λ n. refl) embed_batch-Answers 5
      rounds worker cache-IsSteady (omega arith, (omega arith, (omega arith, (omega arith, tt))))
      rounds-Arrive

kept : (conninfo : String) (s : Session) → machine.connect conninfo ≡ ok s → IsKept s.db
kept conninfo s e =
    let same : session ≡ s = cc in
    subst (λ (x : Session). IsKept x.db) same
      (record {
        ascending = cache-IsSteady.ascending;
        known = cache-IsSteady.known;
        kinds = cache-IsSteady.kinds;
      })

loaded_bounded : All (λ i. i < 5) (ids (load server unloaded).1.session.db.jobs)
loaded_bounded =
    rw ((load_session server unloaded).0)
      (omega arith, (omega arith, (omega arith, (omega arith, tt))))

start_serves_example :
    let w = (load server unloaded).1 in
    let end =
      main_loop server config embed_batch provider rounds
        (record { cache = w; last_purge_check = 30 }) in
    All
      (λ i. IsFinal i end.cache.session.db.jobs)
      (first (length rounds * 8) (waiting w.session.db.jobs))
start_serves_example =
    start_serves server machine config false (load server unloaded).1 embed_batch provider arguments
      5 30 rounds (λ n. refl) (λ n. refl) embed_batch-Answers kept start_run loaded_bounded
      rounds-Arrive

-- A server that answers every statement but the second.
abbrev flaky : Env
flaky = record server { fault = λ n. if n == 1 then some "connection lost" else none }

-- Jobs of both kinds.
abbrev mixed : List ClaimedJob
mixed = claimed 2 (some "docs") embed ∷ claimed 4 none generate ∷ claimed 3 none embed ∷ []

mixed-Distinct : Distinct mixed
mixed-Distinct =
    (((λ e. omega arith), ((λ e. omega arith), tt)), (((λ e. omega arith), tt), (tt, tt)))

process_honest_example :
    HonestRound flaky config embed_batch provider mixed cache
      (process flaky config embed_batch provider true mixed cache)
process_honest_example =
    process_honest flaky config embed_batch provider true mixed cache mixed-Distinct
