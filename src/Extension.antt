-- ===== src/Extension.antt =====
-- sql/pgquarry--1.0.sql: what the functions of the extension do to the tables, and which jobs a change
-- of a watched table enqueues. A function that raises changes nothing. The source
-- tables and their columns are there, and names are short enough not to be cut.
pub mod Changes
pub mod Registered
pub mod Enqueued
pub mod Triggers
pub mod Combined
pub mod Polling
use Prim.Native.String.{◌++◌ as ◌++ₛ◌}
use pgquarry.Base.{
  ℕ, suc, ◌+◌, String, ℤ, Bool, true, false, not, ◌&&◌, ◌||◌, Option, none, some, List, [], ◌∷◌,
  ◌++◌, str_eq, Result, ok, err, if◌then◌else◌, value_or,
}
use pgquarry.Database.{Status, pending, JobRow, WatchedRow, Database}

-- A trigger that calls `enqueue_job`: its name, its table, the columns of UPDATE OF, and its arguments.
pub record Trigger : Type 0 where
  pub name : String
  pub table : String
  pub columns : List String
  pub arguments : List String

-- The tables of the extension, the triggers, and the next value of the sequence of ids.
pub record Catalog : Type 0 where
  pub db : Database
  pub triggers : List Trigger
  pub next_id : ℕ

-- INSERT … ON CONFLICT (source_table, job_type) DO UPDATE.
unfoldable pub upsert : WatchedRow → List WatchedRow → List WatchedRow
upsert w [] = w ∷ []
upsert w (r ∷ rows) =
    if str_eq r.source_table w.source_table && str_eq r.job_type w.job_type
    then w ∷ rows
    else r ∷ upsert w rows

-- DROP TRIGGER IF EXISTS … ON …
unfoldable pub drop_trigger : String → String → List Trigger → List Trigger
drop_trigger name table [] = []
drop_trigger name table (t ∷ triggers) =
    let rest = drop_trigger name table triggers in
    if str_eq t.name name && str_eq t.table table then rest else t ∷ rest

-- The arguments of `watch`, without those that are resolved from others.
pub record WatchArgs : Type 0 where
  pub source : String
  pub embed_column : String
  pub id_column : String
  pub target_table : Option String
  pub target_column : Option String
  pub target_id_column : Option String

abbrev pub embed_trigger : String → String
embed_trigger source = source ++ₛ "_pgquarry_embed"

abbrev pub generate_trigger : String → String
generate_trigger source = source ++ₛ "_pgquarry_generate"

abbrev pub registered :
    String → String → String → String → Option String → String → Option String → WatchedRow
registered source kind id_column source_column target_table target_column target_id_column =
    record {
      source_table = source;
      job_type = kind;
      id_column = id_column;
      source_column = source_column;
      target_table = value_or target_table source;
      target_column = target_column;
      target_id_column = value_or target_id_column id_column;
    }

abbrev pub with_watched : List WatchedRow → List Trigger → Catalog → Catalog
with_watched rows triggers c = record c { db = record c.db { watched = rows }; triggers = triggers }

-- `watch` from its test on.
abbrev pub watched_as : WatchArgs → String → Catalog → Catalog
watched_as a target_column c =
    with_watched
      (upsert
        (registered a.source "embed" a.id_column a.embed_column a.target_table target_column
          a.target_id_column)
        c.db.watched)
      (drop_trigger (embed_trigger a.source) a.source c.triggers
        ++ record {
          name = embed_trigger a.source;
          table = a.source;
          columns = a.embed_column ∷ [];
          arguments = "embed" ∷ [];
        }
          ∷ [])
      c

unfoldable pub watch : WatchArgs → Catalog → Result Catalog
watch a c = elim a.target_column [
  | none ↦
      err "pgquarry.watch: target_column is required (which column should the embedding land in?)"
  | some target_column ↦ ok (watched_as a target_column c)
]

-- The arguments of `watch_generate`.
pub record WatchGenerateArgs : Type 0 where
  pub source : String
  pub embed_column : String
  pub embed_target_column : Option String
  pub prompt_column : String
  pub generate_target_column : Option String
  pub id_column : String
  pub embed_target_table : Option String
  pub embed_target_id_column : Option String
  pub generate_target_table : Option String
  pub generate_target_id_column : Option String

-- `watch_generate` from its two tests on.
unfoldable pub watch_both : WatchGenerateArgs → String → String → Catalog → Catalog
watch_both a embed_target generate_target c =
    with_watched
      (upsert
        (registered a.source "generate" a.id_column a.prompt_column a.generate_target_table
          generate_target a.generate_target_id_column)
        (upsert
          (registered a.source "embed" a.id_column a.embed_column a.embed_target_table embed_target
            a.embed_target_id_column)
          c.db.watched))
      (drop_trigger (generate_trigger a.source) a.source
          (drop_trigger (embed_trigger a.source) a.source c.triggers)
        ++ record {
          name = generate_trigger a.source;
          table = a.source;
          columns = a.embed_column ∷ a.prompt_column ∷ [];
          arguments = "embed" ∷ "generate" ∷ [];
        }
          ∷ [])
      c

unfoldable pub watch_generate : WatchGenerateArgs → Catalog → Result Catalog
watch_generate a c = elim a.embed_target_column [
  | none ↦
      err
        "pgquarry.watch_generate: embed_target_column is required (which column should the embedding land in?)"
  | some embed_target ↦ elim a.generate_target_column [
    | none ↦
        err
          "pgquarry.watch_generate: generate_target_column is required (which column should the generated text land in?)"
    | some generate_target ↦ ok (watch_both a embed_target generate_target c)
  ]
]

-- INSERT INTO pgquarry.jobs with the defaults of the columns that it does not name.
abbrev pub insert_job :
    ℕ → Option String → Option ℤ → Option String → String → String → Option ℤ → Catalog → Catalog
insert_job now source source_id source_column input kind max_tokens c = record c {
  db = record c.db {
    jobs =
        c.db.jobs
        ++ record {
          id = c.next_id;
          status = pending;
          job_type = kind;
          source_table = source;
          source_id = source_id;
          source_column = source_column;
          input_text = input;
          max_tokens = max_tokens;
          result = none;
          result_text = none;
          error_text = none;
          created_at = now;
          updated_at = now;
        }
          ∷ [];
  };
  next_id = suc c.next_id;
}

-- `embed_async` and `generate_async`: the id, and the catalog after them.
unfoldable pub embed_async : ℕ → String → Catalog → ℕ × Catalog
embed_async now input c = (c.next_id, insert_job now none none none input "embed" none c)

unfoldable pub generate_async : ℕ → String → Option ℤ → Catalog → ℕ × Catalog
generate_async now input max_tokens c =
    (c.next_id, insert_job now none none none input "generate" max_tokens c)
