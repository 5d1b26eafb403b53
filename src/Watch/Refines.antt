-- ===== src/Watch/Refines.antt =====
-- The cache against pgquarry.watched_tables: a lookup answers as the table does.
use Prim.Native.String.{◌++◌ as ◌++ₛ◌}
use pgquarry.Base.{
  ℕ, suc, String, ◌≡◌, refl, ◌∙◌, true, ◌&&◌, Option, none, some, List, [], ◌∷◌, ◌++◌, map, arith,
  str_eq, eq_iff, if◌then◌else◌, has_value, All, ok, err,
}
use pgquarry.Config.{TableMapping}
use pgquarry.Database.{Database, WatchedRow, select_watched_tables}
use pgquarry.Store.{to_mapping, load_watched_tables}
use pgquarry.Store.Connection.{Env, statement, failing_with}
use pgquarry.Watch.{WatchCache, mapping_key, find_key, emplace, emplace_all, load}
use pgquarry.Watch.Keys.{IsKind, key_eq}

-- The mapping that a row registers, column by column.
abbrev pub mapping_of : WatchedRow → TableMapping
mapping_of w = record {
  source = w.source_table;
  job_type = w.job_type;
  source_column = w.source_column;
  id_column = w.id_column;
  target_table = w.target_table;
  target_column = w.target_column;
  target_id_column = w.target_id_column;
}

-- The mapping registered for a source and a job type.
unfoldable pub watched_mapping : String → String → List WatchedRow → Option TableMapping
watched_mapping source kind [] = none
watched_mapping source kind (w ∷ rows) =
    if str_eq w.source_table source && str_eq w.job_type kind
    then some (mapping_of w)
    else watched_mapping source kind rows

-- The CHECK constraint of watched_tables.
abbrev pub HasKinds : List WatchedRow → Type 0
HasKinds rows = All (λ w. IsKind w.job_type) rows

abbrev pub NoFaults : Env → Type 0
NoFaults env = (n : ℕ) → env.fault n ≡ none

first_key : String → List TableMapping → Option TableMapping
first_key key [] = none
first_key key (t ∷ tables) =
    if str_eq (mapping_key t.source t.job_type) key then some t else first_key key tables

find_key-append :
    (key k : String) (m : TableMapping) (entries : List (String × TableMapping))
    → find_key key (entries ++ (k, m) ∷ []) ≡ (
        if has_value (find_key key entries)
        then find_key key entries
        else if str_eq k key
        then some m
        else none)
unfolding find_key
find_key-append key k m [] = refl
find_key-append key k m ((j, n) ∷ entries) = ground (arith, find_key-append key k m entries)

find_key-emplace_all :
    (key : String) (entries : List (String × TableMapping)) (tables : List TableMapping)
    → find_key key (emplace_all entries tables)
      ≡ (if has_value (find_key key entries) then find_key key entries else first_key key tables)
unfolding emplace_all emplace first_key
find_key-emplace_all key entries [] = ground arith
find_key-emplace_all key entries (t ∷ tables) =
    let k = mapping_key t.source t.job_type in
    ground (
      arith,
      find_key-emplace_all key entries tables,
      find_key-emplace_all key (entries ++ (k, t) ∷ []) tables,
      find_key-append key k t entries,
      eq_iff k key,
    )

first_key-watched :
    (source kind : String) (db : Database) (rows : List WatchedRow)
    → IsKind kind
    → HasKinds rows
    → first_key
        (mapping_key source kind)
        (map to_mapping (select_watched_tables (record db { watched = rows })))
      ≡ watched_mapping source kind rows
unfolding first_key watched_mapping to_mapping select_watched_tables
first_key-watched source kind db [] k h = refl
first_key-watched source kind db (w ∷ rows) k (hw, h) = ground (
  arith,
  key_eq w.source_table source w.job_type kind hw k,
  first_key-watched source kind db rows k h,
)

-- The cache after a load answers as the table.
pub find_key-loaded :
    (source kind : String) (db : Database)
    → IsKind kind
    → HasKinds db.watched
    → find_key
        (mapping_key source kind)
        (emplace_all [] (map to_mapping (select_watched_tables db)))
      ≡ watched_mapping source kind db.watched
unfolding find_key
find_key-loaded source kind db k h =
    find_key-emplace_all (mapping_key source kind) [] (map to_mapping (select_watched_tables db))
    ∙ first_key-watched source kind db db.watched k h

-- What the cache holds is what the table holds, and after a refresh it misses nothing.
pub record InSync (w : WatchCache) : Type 0 where
  pub hit :
      (source kind : String) (m : TableMapping)
      → IsKind kind
      → find_key (mapping_key source kind) w.by_key ≡ some m
      → watched_mapping source kind w.session.db.watched ≡ some m
  pub miss :
      (source kind : String)
      → IsKind kind
      → w.refreshed_this_batch ≡ true
      → find_key (mapping_key source kind) w.by_key ≡ none
      → watched_mapping source kind w.session.db.watched ≡ none

-- A load sends one statement, and leaves the database as it is.
pub load_session :
    (env : Env) (w : WatchCache)
    → ((load env w).1.session.db ≡ w.session.db)
      × ((load env w).1.session.sent ≡ suc w.session.sent)
      × ((load env w).1.refreshed_this_batch ≡ w.refreshed_this_batch)
unfolding load load_watched_tables failing_with statement
load_session env w = ground arith

pub load_ok :
    (env : Env) (w : WatchCache)
    → env.fault w.session.sent ≡ none
    → ((load env w).0 ≡ ok tt)
      × ((load env w).1.by_key
          ≡ emplace_all [] (map to_mapping (select_watched_tables w.session.db)))
unfolding load load_watched_tables failing_with statement
load_ok env w h = ground arith

pub load_failed :
    (env : Env) (w : WatchCache) (e : String)
    → env.fault w.session.sent ≡ some e
    → ((load env w).0 ≡ err ("JobStore: load_watched_tables failed: " ++ₛ e))
      × ((load env w).1.by_key ≡ [])
unfolding load load_watched_tables failing_with statement
load_failed env w e h = ground arith
