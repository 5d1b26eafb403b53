-- ===== src/Extension/Enqueued.antt =====
-- What `enqueue_job` and the triggers that call it do to the queue.
use pgquarry.Base.{
  String, ℤ, ◌≡◌, refl, sym, ap, ◌∙◌, true, false, Option, none, some, List, [], ◌∷◌, ◌++◌, map,
  Result, ok, All,
}
use mathlib.Core.List.{append_assoc, append-nil}
use pgquarry.Database.{WatchedRow, JobRow}
use pgquarry.Extension.{Trigger, Catalog, insert_job}
use pgquarry.Extension.Changes.{
  select_watched, Change, Casts, cast_id, insert_watched, enqueue_kind, enqueue_job, fires, firing,
  fire,
}

-- What a job is about: its kind, its text, and the row that it is for.
abbrev pub about : JobRow → String × String × Option ℤ
about r = (r.job_type, r.input_text, r.source_id)

abbrev pub jobs_of : Catalog → List (String × String × Option ℤ)
jobs_of c = map about c.db.jobs

map-append : (xs ys : List JobRow) → map about (xs ++ ys) ≡ map about xs ++ map about ys
map-append [] ys = refl
map-append (x ∷ xs) ys = ap (λ zs. about x ∷ zs) (map-append xs ys)

-- The changed row has an id that is a bigint, and a text in the column that the mapping names.
pub record Reads (casts : Casts) (change : Change) (w : WatchedRow) (i : ℤ) (text : String)
    : Type 0 where
  pub id_text : String
  pub has_id : change.new_row w.id_column ≡ some id_text
  pub is_bigint : casts.to_bigint id_text ≡ some i
  pub has_text : change.new_row w.source_column ≡ some text

-- A list of kinds enqueued one after another.
module _ (casts : Casts) (change : Change) where
  enqueue_kind_ok :
      (kind : String) (w : WatchedRow) (i : ℤ) (text : String) (c : Catalog)
      → select_watched change.table kind c.db.watched ≡ some w
      → Reads casts change w i text
      → enqueue_kind casts change kind c
        ≡ ok (
            insert_job change.now
              (some change.table)
              (some i)
              (some w.source_column)
              text
              kind
              none
              c)
  unfolding enqueue_kind cast_id insert_watched
  enqueue_kind_ok kind w i text c h r =
      rw (enqueue_kind, h, r.has_id, cast_id, r.is_bigint, r.has_text) refl

  -- The triggers do what is said of them, and the mappings stay.
  abbrev pub Enqueues : Result Catalog → Catalog → List (String × String × Option ℤ) → Type 0
  Enqueues result c jobs =
      (c' : Catalog) × (result ≡ ok c')
      × (c'.db.watched ≡ c.db.watched)
      × (jobs_of c' ≡ jobs_of c ++ jobs)

  pub enqueue_one :
      (kind : String) (kinds : List String) (w : WatchedRow) (i : ℤ) (text : String) (c : Catalog)
      (jobs : List (String × String × Option ℤ))
      → select_watched change.table kind c.db.watched ≡ some w
      → Reads casts change w i text
      → ((c' : Catalog)
          → c'.db.watched ≡ c.db.watched
          → Enqueues (enqueue_job casts change kinds c') c' jobs)
      → Enqueues (enqueue_job casts change (kind ∷ kinds) c) c ((kind, text, some i) ∷ jobs)
  unfolding enqueue_job
  enqueue_one kind kinds w i text c jobs h r next =
      let c1 =
        insert_job change.now (some change.table) (some i) (some w.source_column) text kind none
          c in
      let (c2, e, k, j) = next c1 refl in
      (
        c2,
        rw (enqueue_job, enqueue_kind_ok kind w i text c h r) e,
        k,
        j
            ∙ ap (λ xs. xs ++ jobs) (map-append c.db.jobs _)
            ∙ append_assoc (jobs_of c) ((kind, text, some i) ∷ []) jobs,
      )

  -- Triggers that do not fire are passed over.
  pub firing_past :
      (quiet triggers : List Trigger)
      → All (λ t. fires casts change t ≡ false) quiet
      → firing casts change (quiet ++ triggers) ≡ firing casts change triggers
  unfolding firing
  firing_past [] triggers a = refl
  firing_past (t ∷ quiet) triggers (h, a) = rw h (firing_past quiet triggers a)

  pub firing_one :
      (t : Trigger) (triggers : List Trigger)
      → fires casts change t ≡ true
      → firing casts change (t ∷ triggers) ≡ t ∷ firing casts change triggers
  unfolding firing
  firing_one t triggers h = rw h refl

  -- A trigger, and those after it.
  pub fire_one :
      (t : Trigger) (triggers : List Trigger) (c : Catalog)
      (jobs later : List (String × String × Option ℤ))
      → Enqueues (enqueue_job casts change t.arguments c) c jobs
      → ((c' : Catalog)
          → c'.db.watched ≡ c.db.watched
          → Enqueues (fire casts change triggers c') c' later)
      → Enqueues (fire casts change (t ∷ triggers) c) c (jobs ++ later)
  unfolding fire
  fire_one t triggers c jobs later (c1, e, k, j) next =
      let (c2, f, l, m) = next c1 k in
      (
        c2,
        rw (fire, e) f,
        l ∙ k,
        m ∙ ap (λ xs. xs ++ later) j ∙ append_assoc (jobs_of c) jobs later,
      )

  pub nothing_more : (c : Catalog) → Enqueues (ok c) c []
  nothing_more c = (c, refl, refl, sym (append-nil (jobs_of c)))
