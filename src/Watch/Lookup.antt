-- ===== src/Watch/Lookup.antt =====
-- What a lookup in the cache answers, what it sends to the server, and what a failed refresh does.
use pgquarry.Base.{
  suc, ◌+◌, ◌≤◌, String, ◌≡◌, refl, ap, ◌∙◌, ◌⊎◌, inl, inr, true, false, none, some, List, [], ◌∷◌,
  arith, Option-cases,
}
use pgquarry.Store.Connection.{Env}
use pgquarry.Watch.{WatchCache, mapping_key, find_key, load, begin_batch, refresh, find}
use pgquarry.Watch.Keys.{IsKind}
use pgquarry.Watch.Refines.{
  watched_mapping, HasKinds, NoFaults, InSync, find_key-loaded, load_session, load_ok, load_failed,
}

abbrev asked : WatchCache → WatchCache
asked w = record w { refreshed_this_batch = true }

-- A refresh that succeeds answers as the table, and leaves a cache that holds all of the table.
refresh-refines :
    (env : Env) (source kind : String) (w : WatchCache)
    → NoFaults env
    → HasKinds w.session.db.watched
    → IsKind kind
    → (refresh env (mapping_key source kind) w).0 ≡ watched_mapping source kind w.session.db.watched
unfolding refresh
refresh-refines env source kind w n h k =
    ground (
      arith,
      load_ok env (asked w) (n w.session.sent),
      find_key-loaded source kind w.session.db k h,
    )

refresh_state :
    (env : Env) (key : String) (w : WatchCache) → (refresh env key w).1 ≡ (load env (asked w)).1
unfolding refresh
refresh_state env key w = ground arith

pub load-InSync :
    (env : Env) (w : WatchCache)
    → env.fault w.session.sent ≡ none
    → HasKinds w.session.db.watched
    → InSync (load env w).1
load-InSync env w f h = record {
  hit = λ source kind m k e.
      ground (
        arith,
        e,
        load_ok env w f,
        load_session env w,
        find_key-loaded source kind w.session.db k h,
      );
  miss = λ source kind k r e.
      ground (
        arith,
        e,
        load_ok env w f,
        load_session env w,
        find_key-loaded source kind w.session.db k h,
      );
}

-- While the server answers and the cache is in step with the table, a lookup returns the mapping
-- that the table has for the source and the job type, or none where the table has none.
pub find-refines :
    (env : Env) (source kind : String) (w : WatchCache)
    → NoFaults env
    → HasKinds w.session.db.watched
    → IsKind kind
    → InSync w
    → (find env source kind w).0 ≡ watched_mapping source kind w.session.db.watched
unfolding find
find-refines env source kind w n h k v =
    elim (Option-cases (find_key (mapping_key source kind) w.by_key)) [
      | inl e ↦ ground (arith, e, v.miss source kind k, refresh-refines env source kind w n h k)
      | inr (m, e) ↦ ground (arith, e, v.hit source kind m k e)
    ]

find_state :
    (env : Env) (source kind : String) (w : WatchCache)
    → ((find env source kind w).1 ≡ w) ⊎ ((find env source kind w).1 ≡ (load env (asked w)).1)
unfolding find
find_state env source kind w = ground (arith, refresh_state env (mapping_key source kind) w)

-- A lookup leaves the cache in step with the table, while the server answers.
pub find-InSync :
    (env : Env) (source kind : String) (w : WatchCache)
    → NoFaults env
    → HasKinds w.session.db.watched
    → InSync w
    → InSync (find env source kind w).1
find-InSync env source kind w n h v = elim (find_state env source kind w) [
  | inl e ↦ rw e v
  | inr e ↦ rw e (load-InSync env (asked w) (n w.session.sent) h)
]

-- A lookup never changes the database, and sends no statement or one, one only where the batch has
-- had no refresh yet.
pub find_session :
    (env : Env) (source kind : String) (w : WatchCache)
    → ((find env source kind w).1.session.db ≡ w.session.db)
      × (((find env source kind w).1 ≡ w)
          ⊎ ((w.refreshed_this_batch ≡ false)
              × ((find env source kind w).1.refreshed_this_batch ≡ true)
              × ((find env source kind w).1.session.sent ≡ suc w.session.sent)))
unfolding find
find_session env source kind w =
    ground (arith, refresh_state env (mapping_key source kind) w, load_session env (asked w))

-- The lookups of a batch, in their order.
pub finds : Env → List (String × String) → WatchCache → WatchCache
finds env [] w = w
finds env ((source, kind) ∷ queries) w = finds env queries (find env source kind w).1

finds_after_refresh :
    (env : Env) (queries : List (String × String)) (w : WatchCache)
    → w.refreshed_this_batch ≡ true
    → (finds env queries w).session.sent ≡ w.session.sent
unfolding finds
finds_after_refresh env [] w r = refl
finds_after_refresh env ((source, kind) ∷ queries) w r = ground (
  arith,
  find_session env source kind w,
  finds_after_refresh env queries (find env source kind w).1,
)

finds_sent :
    (env : Env) (queries : List (String × String)) (w : WatchCache)
    → (finds env queries w).session.sent ≤ w.session.sent + 1
unfolding finds
finds_sent env [] w = omega arith
finds_sent env ((source, kind) ∷ queries) w = ground (
  arith,
  find_session env source kind w,
  finds_sent env queries (find env source kind w).1,
  finds_after_refresh env queries (find env source kind w).1,
)

-- After `begin_batch`, whatever is looked up and however the server answers, at most one statement
-- is sent to reload the mappings.
pub one_reload_per_batch :
    (env : Env) (queries : List (String × String)) (w : WatchCache)
    → (finds env queries (begin_batch env w)).session.sent ≤ w.session.sent + 1
unfolding begin_batch
one_reload_per_batch env queries w =
    finds_sent env queries (record w { refreshed_this_batch = false })

-- Once the batch has had its refresh, lookups change nothing.
finds_idle :
    (env : Env) (queries : List (String × String)) (w : WatchCache)
    → w.refreshed_this_batch ≡ true
    → finds env queries w ≡ w
unfolding finds
finds_idle env [] w r = refl
finds_idle env ((source, kind) ∷ queries) w r = elim (find_session env source kind w).1 [
  | inl e ↦ ap (finds env queries) e ∙ finds_idle env queries w r
  | inr (f, h, k) ↦ absurd (ground (arith, r, f))
]

failed_refresh :
    (env : Env) (source kind e : String) (w : WatchCache)
    → w.refreshed_this_batch ≡ false
    → find_key (mapping_key source kind) w.by_key ≡ none
    → env.fault w.session.sent ≡ some e
    → ((find env source kind w).1.refreshed_this_batch ≡ true)
      × ((find env source kind w).1.by_key ≡ [])
unfolding find find_key
failed_refresh env source kind e w r miss f = ground (
  arith,
  refresh_state env (mapping_key source kind) w,
  load_session env (asked w),
  load_failed env (asked w) e f,
)

find_in_empty :
    (env : Env) (source kind : String) (w : WatchCache)
    → w.refreshed_this_batch ≡ true
    → w.by_key ≡ []
    → (find env source kind w).0 ≡ none
unfolding find find_key
find_in_empty env source kind w r b =
    ground (arith, r, b, refresh_state env (mapping_key source kind) w)

-- A refresh that fails empties the cache: the rest of the batch, after whatever other lookups, then
-- finds no mapping at all, not even one that the cache held before and the table still has.
pub failed_refresh_forgets :
    (env : Env) (source kind other_source other_kind e : String) (between : List (String × String))
    (w : WatchCache)
    → w.refreshed_this_batch ≡ false
    → find_key (mapping_key source kind) w.by_key ≡ none
    → env.fault w.session.sent ≡ some e
    → (find env other_source other_kind (finds env between (find env source kind w).1)).0 ≡ none
failed_refresh_forgets env source kind other_source other_kind e between w r miss f =
    let (h, k) = failed_refresh env source kind e w r miss f in
    let v = (find env source kind w).1 in
    ap (λ u. (find env other_source other_kind u).0) (finds_idle env between v h)
    ∙ find_in_empty env other_source other_kind v h k
