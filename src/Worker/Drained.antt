-- ===== src/Worker/Drained.antt =====
-- The main loop: the jobs that wait end in turn, whatever arrives in the meantime.
use pgquarry.Base.{
  ℕ, zero, suc, ◌+◌, ◌*◌, ◌<◌, String, ℤ, subst, Option, List, [], ◌∷◌, ◌++◌, Result, All, arith,
  length, pos_part,
}
use pgquarry.Config.{AppConfig}
use pgquarry.Store.Claim.{ids, first}
use pgquarry.Store.Connection.{Env}
use pgquarry.Store.Literal.{Float}
use pgquarry.Watch.Refines.{NoFaults}
use pgquarry.Worker.{Worker, Round, with_arrivals, round, main_loop}
use pgquarry.Worker.Backlog.{waiting, drop, IsFinal, All-imp}
use pgquarry.Worker.Batches.{Answers}
use pgquarry.Worker.Claimed.{All-first, All-waiting, All-both}
use pgquarry.Worker.Settled.{round-Advances}
use pgquarry.Worker.Taken.{NoLocks}
use pgquarry.Worker.Arrivals.{
  AreNew, Arrive, waiting-append, arrivals-IsSteady, arrivals_bounded, arrivals-IsFinal,
}
use pgquarry.Worker.Steady.{IsSteady, Advances}

no_ids : (P : ℕ → Type 0) (n : ℕ) → All P (first n [])
no_ids P zero = tt
no_ids P (suc n) = tt

-- The first of a longer list, in two parts.
All_first_split :
    (P : ℕ → Type 0) (m n : ℕ) (xs : List ℕ)
    → All P (first m xs)
    → All P (first n (drop m xs))
    → All P (first (m + n) xs)
All_first_split P zero n xs a b =
    subst (λ k. All P (first k xs)) {x = n} {y = 0 + n} (omega arith) b
All_first_split P (suc m) n [] a b = no_ids P (suc m + n)
All_first_split P (suc m) n (x ∷ xs) (p, a) b =
    subst (λ k. All P (first k (x ∷ xs))) {x = suc (m + n)} {y = suc m + n} (omega arith)
      (p, All_first_split P m n xs a b)

All_first_prefix :
    (P : ℕ → Type 0) (n : ℕ) (xs ys : List ℕ) → All P (first n (xs ++ ys)) → All P (first n xs)
All_first_prefix P zero xs ys a = tt
All_first_prefix P (suc n) [] ys a = tt
All_first_prefix P (suc n) (x ∷ xs) ys (p, a) = (p, All_first_prefix P n xs ys a)

module _ (env : Env) (cfg : AppConfig) (embed_batch : List String → Result (List (List Float)))
    (provider : Option (String → ℤ → Result String)) (n : NoFaults env) (l : NoLocks env)
    (answers : Answers embed_batch) where
  -- The state after the arrivals and the round that follows.
  module _ (low : ℕ) (r : Round) (k : Worker) (s : IsSteady k.cache)
      (b : All (λ i. i < low) (ids k.cache.session.db.jobs)) (high : ℕ)
      (new : AreNew low high r.arrivals) where
    abbrev next : Worker
    next =
        round env cfg embed_batch provider r.embed_first r.now
          (record k { cache = with_arrivals r.arrivals k.cache })

    next-Advances :
        Advances
          (pos_part cfg.embedding.max_batch_size)
          (with_arrivals r.arrivals k.cache)
          next.cache
    next-Advances =
        round-Advances env cfg embed_batch provider n l answers r.embed_first r.now
          (record k { cache = with_arrivals r.arrivals k.cache })
          (arrivals-IsSteady low high r.arrivals k.cache new s b)

    next_bounded : All (λ i. i < high) (ids next.cache.session.db.jobs)
    next_bounded = next-Advances.bounded high (arrivals_bounded low high r.arrivals k.cache new s b)

    next-IsFinal :
        (i : ℕ) → i < low → IsFinal i k.cache.session.db.jobs → IsFinal i next.cache.session.db.jobs
    next-IsFinal i h f =
        next-Advances.final i (arrivals-IsFinal low high r.arrivals k.cache new s b i h f)

  main_loop-IsFinal :
      (low : ℕ) (rounds : List Round) (k : Worker)
      → IsSteady k.cache
      → All (λ i. i < low) (ids k.cache.session.db.jobs)
      → Arrive low rounds
      → (i : ℕ) → i < low
      → IsFinal i k.cache.session.db.jobs
      → IsFinal i (main_loop env cfg embed_batch provider rounds k).cache.session.db.jobs
  unfolding main_loop
  main_loop-IsFinal low [] k s b a i h f = f
  main_loop-IsFinal low (r ∷ rounds) k s b (high, new, a) i h f =
      main_loop-IsFinal high rounds (next low r k s b high new)
        (next-Advances low r k s b high new).steady (next_bounded low r k s b high new) a i
        (omega (arith, h, new.rises)) (next-IsFinal low r k s b high new i h f)

  -- While the server answers and no other session holds a row, and unless `embed_batch` returns no
  -- vector at all for some texts, the main loop reaches every job that waits: from a state with rising
  -- ids below a bound, known kinds and a cache in step with the table, after some rounds each of the
  -- oldest waiting jobs, as many as the rounds times the batch size, is done or in error, or has been
  -- purged since. Jobs that arrive in the meantime, with ids from the bound on that rise and known
  -- kinds, do not hold them up.
  pub main_loop_ends :
      (low : ℕ) (rounds : List Round) (k : Worker)
      → IsSteady k.cache
      → All (λ i. i < low) (ids k.cache.session.db.jobs)
      → Arrive low rounds
      → All
          (λ i. IsFinal i (main_loop env cfg embed_batch provider rounds k).cache.session.db.jobs)
          (first
            (length rounds * pos_part cfg.embedding.max_batch_size)
            (waiting k.cache.session.db.jobs))
  unfolding main_loop
  main_loop_ends low [] k s b a =
      subst
        (λ m.
          All (λ i. IsFinal i k.cache.session.db.jobs) (first m (waiting k.cache.session.db.jobs)))
        {x = 0} {y = 0 * pos_part cfg.embedding.max_batch_size} (omega arith) tt
  main_loop_ends low (r ∷ rounds) k s b (high, new, a) =
      let limit = pos_part cfg.embedding.max_batch_size in
      let k' = next low r k s b high new in
      let adv = next-Advances low r k s b high new in
      let end = (main_loop env cfg embed_batch provider rounds k').cache.session.db.jobs in
      let queue = waiting (with_arrivals r.arrivals k.cache).session.db.jobs in
      let later = main_loop_ends high rounds k' adv.steady (next_bounded low r k s b high new) a in
      let here : All (λ i. IsFinal i end) (first limit queue) =
        All-imp (λ i. (i < high) × IsFinal i k'.cache.session.db.jobs) (λ i. IsFinal i end)
          (λ i h.
            main_loop-IsFinal high rounds k' adv.steady (next_bounded low r k s b high new) a i h.0
              h.1)
          (first limit queue)
          (All-both (λ i. i < high) (λ i. IsFinal i k'.cache.session.db.jobs) (first limit queue)
            (All-first (λ i. i < high) limit queue
              (All-waiting (λ i. i < high) (with_arrivals r.arrivals k.cache).session.db.jobs
                (arrivals_bounded low high r.arrivals k.cache new s b)))
            adv.ended) in
      let all =
        All_first_split (λ i. IsFinal i end) limit (length rounds * limit) queue here
          (subst (λ q. All (λ i. IsFinal i end) (first (length rounds * limit) q)) adv.left
            later) in
      All_first_prefix (λ i. IsFinal i end) (suc (length rounds) * limit)
        (waiting k.cache.session.db.jobs) (waiting r.arrivals)
        (subst (λ q. All (λ i. IsFinal i end) (first (suc (length rounds) * limit) q))
          (waiting-append k.cache.session.db.jobs r.arrivals)
          (subst (λ m. All (λ i. IsFinal i end) (first m queue)) {x = limit + length rounds * limit}
            {y = suc (length rounds) * limit} (omega arith) all))
