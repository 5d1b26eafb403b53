-- ===== src/Worker/Rounds.antt =====
-- The rounds of the main loop: when they purge, and which jobs they take.
use pgquarry.Base.{
  ℕ, ◌+◌, ◌≤◌, ◌≡◌, ◌⊎◌, inl, inr, refl, String, ℤ, Bool, true, false, Option, List, [], ◌∷◌, arith,
  Result, ok, err, leb, ◌&&◌, All, Option-cases, Bool-cases, pos_part,
}
use pgquarry.Config.{AppConfig, enabled}
use pgquarry.Config.Purge.{parse_purge_after}
use pgquarry.Job.{embed, generate}
use pgquarry.Store.{ClaimedJob, claim_pending}
use pgquarry.Store.Connection.{Env}
use pgquarry.Store.Literal.{Float}
use pgquarry.Worker.{Worker, of_type, process, sweep, with_session, claimed_round, round}

module _ (env : Env) (cfg : AppConfig) (embed_batch : List String → Result (List (List Float)))
    (provider : Option (String → ℤ → Result String)) where
  sweep_times :
      (now : ℕ) (k : Worker)
      → (sweep env cfg embed_batch provider now k ≡ k)
        ⊎ ((enabled cfg.retention ≡ true)
            × (k.last_purge_check + 60 ≤ now)
            × ((sweep env cfg embed_batch provider now k).last_purge_check ≡ now))
  unfolding sweep
  sweep_times now k = elim (Option-cases (parse_purge_after cfg.retention.purge_after)) [
    | inl e ↦ rw (sweep, e) (inl refl)
    | inr (text, e) ↦
        rw (sweep, e)
          (elim (Bool-cases (enabled cfg.retention && leb (k.last_purge_check + 60) now)) [
            | inl h ↦ inr (ground (arith, h))
            | inr h ↦ inl (ground (arith, h))
          ])
  ]

  -- The worker after the claim and the dispatch of a round, before the purge.
  abbrev pub unswept : Bool → Result (List ClaimedJob) → Worker → Worker
  unswept embed_first (err e) k = k
  unswept embed_first (ok claimed) k = record k {
    cache = process env cfg embed_batch provider embed_first claimed k.cache;
  }

  claimed_round_times :
      (embed_first : Bool) (now : ℕ) (r : Result (List ClaimedJob)) (k : Worker)
      → (claimed_round env cfg embed_batch provider embed_first now r k ≡ unswept embed_first r k)
        ⊎ ((enabled cfg.retention ≡ true)
            × (k.last_purge_check + 60 ≤ now)
            × ((claimed_round env cfg embed_batch provider embed_first now r k).last_purge_check
                ≡ now))
  unfolding claimed_round
  claimed_round_times embed_first now (err e) k = inl refl
  claimed_round_times embed_first now (ok claimed) k =
      sweep_times now (unswept embed_first (ok claimed) k)

  -- A round is the claim and the dispatch alone, or else it purges too: only where purging is
  -- enabled and at least 60 seconds have passed since the time noted, and then it notes its own time.
  pub round_times :
      (embed_first : Bool) (now : ℕ) (k : Worker)
      → let claim = claim_pending env (pos_part cfg.embedding.max_batch_size) k.cache.session in
        let run = round env cfg embed_batch provider embed_first now k in
        (run ≡ unswept embed_first claim.0 (with_session claim.1 k))
        ⊎ ((enabled cfg.retention ≡ true)
            × (k.last_purge_check + 60 ≤ now)
            × (run.last_purge_check ≡ now))
  unfolding round
  round_times embed_first now k =
      let (r, s) = claim_pending env (pos_part cfg.embedding.max_batch_size) k.cache.session in
      claimed_round_times embed_first now r (with_session s k)

-- A list dealt out to two, which keep its order.
pub data Interleaves : List ClaimedJob → List ClaimedJob → List ClaimedJob → Type 0 where
  both_empty : Interleaves [] [] []
  left_first :
      {j : ClaimedJob} {all xs ys : List ClaimedJob}
      → Interleaves all xs ys
      → Interleaves (j ∷ all) (j ∷ xs) ys
  right_first :
      {j : ClaimedJob} {all xs ys : List ClaimedJob}
      → Interleaves all xs ys
      → Interleaves (j ∷ all) xs (j ∷ ys)

pub record IsSplit (claimed embeds generates : List ClaimedJob) : Type 0 where
  pub all_embed : All (λ (j : ClaimedJob). j.job_type ≡ embed) embeds
  pub all_generate : All (λ (j : ClaimedJob). j.job_type ≡ generate) generates
  pub none_lost : Interleaves claimed embeds generates

of_type_cases :
    (job : ClaimedJob) (jobs : List ClaimedJob)
    → ((job.job_type ≡ embed)
        × (of_type false (job ∷ jobs) ≡ job ∷ of_type false jobs)
        × (of_type true (job ∷ jobs) ≡ of_type true jobs))
      ⊎ ((job.job_type ≡ generate)
          × (of_type false (job ∷ jobs) ≡ of_type false jobs)
          × (of_type true (job ∷ jobs) ≡ job ∷ of_type true jobs))
unfolding of_type
of_type_cases job jobs = ground arith

-- The claimed jobs are dealt out completely: the embed jobs to the one dispatch and the generate jobs
-- to the other, each in the order of the claim.
of_type-IsSplit :
    (claimed : List ClaimedJob) → IsSplit claimed (of_type false claimed) (of_type true claimed)
unfolding of_type
of_type-IsSplit [] = record { all_embed = tt; all_generate = tt; none_lost = both_empty }
of_type-IsSplit (job ∷ jobs) =
    let rest = of_type-IsSplit jobs in
    elim (of_type_cases job jobs) [
      | inl (t, e, g) ↦
          rw (e, g)
            (record {
              all_embed = (t, rest.all_embed);
              all_generate = rest.all_generate;
              none_lost = left_first rest.none_lost;
            })
      | inr (t, e, g) ↦
          rw (e, g)
            (record {
              all_embed = rest.all_embed;
              all_generate = (t, rest.all_generate);
              none_lost = right_first rest.none_lost;
            })
    ]
