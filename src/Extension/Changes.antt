-- ===== src/Extension/Changes.antt =====
-- `enqueue_job` of sql/pgquarry--1.0.sql, and the triggers that call it: what a change of a watched table
-- enqueues.
use Prim.Native.String.{◌++◌ as ◌++ₛ◌}
use pgquarry.Base.{
  ℕ, String, ℤ, Bool, false, ◌&&◌, ◌||◌, Option, none, some, List, [], ◌∷◌, str_eq, Result, ok, err,
  if◌then◌else◌,
}
use pgquarry.Database.{WatchedRow}
use pgquarry.Extension.{Trigger, Catalog, insert_job}

-- The row of watched_tables for a source and a kind.
unfoldable pub select_watched : String → String → List WatchedRow → Option WatchedRow
select_watched source kind [] = none
select_watched source kind (w ∷ rows) =
    if str_eq w.source_table source && str_eq w.job_type kind
    then some w
    else select_watched source kind rows

-- A change of a row of a user table: when, in which table, whether it is an INSERT, the columns that an
-- UPDATE names, and the new row as `to_jsonb(NEW) ->> column` reads it.
pub record Change : Type 0 where
  pub now : ℕ
  pub table : String
  pub is_insert : Bool
  pub columns : List String
  pub new_row : String → Option String

-- The cast of a text to a bigint, none where Postgres refuses it, and the messages of Postgres for that
-- and for a NULL in `input_text`.
pub record Casts : Type 0 where
  pub to_bigint : String → Option ℤ
  pub bad_bigint : String → String
  pub null_text : String
  -- whether a trigger of the first name fires before one of the second
  pub before : String → String → Bool

module _ (casts : Casts) (change : Change) where
  unfoldable pub cast_id : Option String → Result (Option ℤ)
  cast_id none = ok none
  cast_id (some t) = elim (casts.to_bigint t) [
    | none ↦ err (casts.bad_bigint t)
    | some i ↦ ok (some i)
  ]

  -- The end of a round of `enqueue_job`: the cast, and the constraint of `input_text`.
  unfoldable pub insert_watched :
      WatchedRow → String → Result (Option ℤ) → Option String → Catalog → Result Catalog
  insert_watched w kind (err e) text c = err e
  insert_watched w kind (ok i) none c = err casts.null_text
  insert_watched w kind (ok i) (some text) c =
      ok (insert_job change.now (some change.table) i (some w.source_column) text kind none c)

  -- A round of the loop of `enqueue_job`.
  unfoldable pub enqueue_kind : String → Catalog → Result Catalog
  enqueue_kind kind c = elim (select_watched change.table kind c.db.watched) [
    | none ↦ err (
        "pgquarry.enqueue_job: no "
        ++ₛ (kind
            ++ₛ (" watch registered for \""
                ++ₛ (change.table
                    ++ₛ "\" — call pgquarry.watch(...) / pgquarry.watch_generate(...) as appropriate, or add it to pgquarry.toml and (re)start pgquarry_worker"))))
    | some w ↦
        insert_watched w kind (cast_id (change.new_row w.id_column))
          (change.new_row w.source_column) c
  ]

  unfoldable pub enqueue_job : List String → Catalog → Result Catalog
  enqueue_job [] c = ok c
  enqueue_job (kind ∷ kinds) c = elim (enqueue_kind kind c) [
    | err e ↦ err e
    | ok c' ↦ enqueue_job kinds c'
  ]

  abbrev pub names : List String → String → Bool
  names [] column = false
  names (x ∷ xs) column = str_eq x column || names xs column

  abbrev pub some_named : List String → Bool
  some_named [] = false
  some_named (x ∷ xs) = names change.columns x || some_named xs

  -- AFTER INSERT OR UPDATE OF … ON …
  unfoldable pub fires : Trigger → Bool
  fires t = str_eq t.table change.table && (change.is_insert || some_named t.columns)

  unfoldable pub firing : List Trigger → List Trigger
  firing [] = []
  firing (t ∷ triggers) = let rest = firing triggers in if fires t then t ∷ rest else rest

  -- Triggers fire in the order of their names.
  unfoldable pub insert_named : Trigger → List Trigger → List Trigger
  insert_named t [] = t ∷ []
  insert_named t (x ∷ xs) =
      let rest = insert_named t xs in if casts.before t.name x.name then t ∷ x ∷ xs else x ∷ rest

  unfoldable pub by_name : List Trigger → List Trigger
  by_name [] = []
  by_name (t ∷ triggers) = insert_named t (by_name triggers)

  -- The triggers one after another; an error in one undoes the change.
  unfoldable pub fire : List Trigger → Catalog → Result Catalog
  fire [] c = ok c
  fire (t ∷ triggers) c = elim (enqueue_job t.arguments c) [
    | err e ↦ err e
    | ok c' ↦ fire triggers c'
  ]

-- A change of a user table, with what its triggers make of it.
unfoldable pub change_row : Casts → Change → Catalog → Result Catalog
change_row casts change c =
    fire casts change (by_name casts change (firing casts change c.triggers)) c
