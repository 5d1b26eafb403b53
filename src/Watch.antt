-- ===== src/Watch.antt =====
-- src/watch_cache.cpp: the worker's copy of pgquarry.watched_tables. An unordered_map is the list of
-- its entries, in the order of their insertion.
pub mod Keys
pub mod Refines
pub mod Lookup
use Prim.Native.String.{◌++◌}
use pgquarry.Base.{
  ℕ, String, Bool, true, false, Option, none, some, List, [], ◌∷◌, ◌++◌ as ◌++ₗ◌, str_eq, Result,
  ok, err, Exec, length, if◌then◌else◌, has_value,
}
use pgquarry.Config.{TableMapping}
use pgquarry.Store.{load_watched_tables}
use pgquarry.Store.Connection.{Env, Session}

-- `WatchCache`, with the store that it refers to.
pub record WatchCache : Type 0 where
  pub session : Session
  pub by_key : List (String × TableMapping)
  pub refreshed_this_batch : Bool

unfoldable pub mapping_key : String → String → String
mapping_key source job_type = source ++ ("\u{1f}" ++ job_type)

-- `by_key_.find`.
unfoldable pub find_key : String → List (String × TableMapping) → Option TableMapping
find_key key [] = none
find_key key ((k, m) ∷ entries) = if str_eq k key then some m else find_key key entries

-- `by_key_.emplace`, which keeps the entry that is there.
unfoldable pub emplace :
    String → TableMapping → List (String × TableMapping) → List (String × TableMapping)
emplace key m entries =
    if has_value (find_key key entries) then entries else entries ++ₗ ((key, m) ∷ [])

-- The loop of `load`.
unfoldable pub emplace_all :
    List (String × TableMapping) → List TableMapping → List (String × TableMapping)
emplace_all entries [] = entries
emplace_all entries (t ∷ tables) =
    emplace_all (emplace (mapping_key t.source t.job_type) t entries) tables

-- The end of `load`: the map was cleared before the store was asked.
unfoldable pub loaded :
    WatchCache → Result (List TableMapping) → Session → Result (Unit {0}) × WatchCache
loaded w (ok tables) s = (ok tt, record w { session = s; by_key = emplace_all [] tables })
loaded w (err e) s = (err e, record w { session = s; by_key = [] })

module _ (env : Env) where
  unfoldable pub load : Exec WatchCache (Unit {0})
  unfolding loaded
  load w = let (r, s) = load_watched_tables env w.session in loaded w r s

  unfoldable pub begin_batch : WatchCache → WatchCache
  begin_batch w = record w { refreshed_this_batch = false }

  -- The `try` block of `find`.
  unfoldable pub find_again :
      String → Result (Unit {0}) → WatchCache → Option TableMapping × WatchCache
  find_again key (ok _) w = (find_key key w.by_key, w)
  find_again key (err e) w = (none, w)

  unfoldable pub refresh : String → WatchCache → Option TableMapping × WatchCache
  unfolding find_again
  refresh key w =
      let (r, w') = load (record w { refreshed_this_batch = true }) in find_again key r w'

  unfoldable pub find : String → String → WatchCache → Option TableMapping × WatchCache
  find source job_type w =
      let key = mapping_key source job_type in
      elim (find_key key w.by_key) [
        | some m ↦ (some m, w)
        | none ↦ if w.refreshed_this_batch then (none, w) else refresh key w
      ]

unfoldable pub size : WatchCache → ℕ
size w = length w.by_key

-- The loop of `describe`.
describe_from : String → List (String × TableMapping) → String
describe_from joined [] = joined
describe_from joined ((k, m) ∷ entries) =
    describe_from
      ((if str_eq joined "" then joined else joined ++ ", ") ++ (m.source ++ (":" ++ m.job_type)))
      entries

unfoldable pub describe : WatchCache → String
unfolding describe_from
describe w = let joined = describe_from "" w.by_key in if str_eq joined "" then "(none)" else joined
