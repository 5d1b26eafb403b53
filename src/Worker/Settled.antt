-- ===== src/Worker/Settled.antt =====
-- A whole round of the main loop, while the server answers: which jobs wait after it, and which have
-- ended.
use pgquarry.Base.{
  ℕ, ◌+◌, String, ℤ, inl, inr, refl, Bool, Option, List, Result, pos_part, leb, ◌&&◌, Bool-cases,
  Option-cases,
}
use pgquarry.Config.{AppConfig, enabled}
use pgquarry.Config.Purge.{parse_purge_after}
use pgquarry.Store.{claim_pending}
use pgquarry.Store.Connection.{Env}
use pgquarry.Store.Literal.{Float}
use pgquarry.Watch.{WatchCache}
use pgquarry.Watch.Refines.{HasKinds, NoFaults}
use pgquarry.Worker.{Worker, process, sweep, claimed_round, round}
use pgquarry.Worker.Batches.{Answers}
use pgquarry.Worker.Processed.{process-Processes}
use pgquarry.Worker.Purged.{purge_done-db}
use pgquarry.Worker.Steady.{IsSteady, Advances, purge_rows-Advances, same_db-Advances}
use pgquarry.Worker.Taken.{
  NoLocks, claimed-HasRow, claimed-Distinct, processed-Advances, claim-Claimed, claim_returns,
}

module _ (env : Env) (cfg : AppConfig) (embed_batch : List String → Result (List (List Float)))
    (provider : Option (String → ℤ → Result String)) (n : NoFaults env) (l : NoLocks env)
    (answers : Answers embed_batch) where
  sweep-Advances :
      (limit now : ℕ) (w : WatchCache) (k : Worker)
      → Advances limit w k.cache
      → Advances limit w (sweep env cfg embed_batch provider now k).cache
  unfolding sweep
  sweep-Advances limit now w k a =
      elim (Option-cases (parse_purge_after cfg.retention.purge_after)) [
        | inl e ↦ rw (sweep, e) a
        | inr (text, e) ↦
            elim (Bool-cases (enabled cfg.retention && leb (k.last_purge_check + 60) now)) [
              | inl h ↦
                  rw (sweep, e, h)
                    (elim (purge_done-db env text cfg.retention.purge_verbose k.cache.session n) [
                      | inl d ↦ same_db-Advances limit w k.cache _ d a
                      | inr (age, at, d) ↦ purge_rows-Advances limit age at w k.cache _ d a
                    ])
              | inr h ↦ rw (sweep, e, h) a
            ]
      ]

  -- While the server answers and no other session holds a row, and unless `embed_batch` returns no
  -- vector at all for some texts, from a state with rising ids, known kinds and a cache in step
  -- with the table: a round ends the oldest waiting jobs, as many as the batch size: each is done
  -- or in error, or has been purged since. The other waiting jobs wait on, what had ended stays
  -- ended, the state stays as described, and a bound of the ids is kept. This holds whichever
  -- dispatch comes first, and whether the round purges or not.
  pub round-Advances :
      (embed_first : Bool) (now : ℕ) (k : Worker)
      → IsSteady k.cache
      → Advances
          (pos_part cfg.embedding.max_batch_size)
          k.cache
          (round env cfg embed_batch provider embed_first now k).cache
  unfolding round claimed_round
  round-Advances embed_first now k s =
      let limit = pos_part cfg.embedding.max_batch_size in
      let run = claim_pending env limit k.cache.session in
      let (claimed, e) = claim_returns env n l limit k.cache s run.0 refl in
      let c = claim-Claimed env n l limit k.cache s claimed e in
      let w = record k.cache { session = run.1 } in
      let h : HasKinds w.session.db.watched = rw c.watched s.kinds in
      let p =
        process-Processes env cfg embed_batch provider n answers embed_first claimed w h c.in_sync
          (claimed-Distinct limit k.cache w claimed s c)
          (claimed-HasRow limit k.cache w claimed s c) in
      rw e (
        sweep-Advances limit now k.cache
          (record k { cache = process env cfg embed_batch provider embed_first claimed w })
          (processed-Advances limit k.cache w claimed s c _ p))
