-- ===== src/Extension/Registered.antt =====
-- `watch` and `watch_generate`: the mappings that they register, as the worker looks them up.
use mathlib.Core.Option
use pgquarry.Base.{
  String, ◌≡◌, inl, inr, refl, sym, subst, ap, ◌∙◌, Bool, true, false, ◌&&◌, some, List, [], ◌∷◌,
  arith, str_eq, eq_iff, Result, ok, err, none, if◌then◌else◌, Bool-cases, Option-cases, value_or,
}
use pgquarry.Database.{WatchedRow}
use pgquarry.Watch.Refines.{mapping_of, watched_mapping}
use pgquarry.Extension.{Catalog, WatchArgs, registered, upsert, watched_as, watch}
use pgquarry.Extension.Changes.{select_watched}

abbrev pub matches : String → String → WatchedRow → Bool
matches source kind w = str_eq w.source_table source && str_eq w.job_type kind

matches_same :
    (source kind : String) (r w : WatchedRow)
    → str_eq r.source_table w.source_table && str_eq r.job_type w.job_type ≡ true
    → matches source kind r ≡ matches source kind w
matches_same source kind r w h =
    let s : r.source_table ≡ w.source_table =
      ground (arith, h, eq_iff r.source_table w.source_table) in
    let k : r.job_type ≡ w.job_type = ground (arith, h, eq_iff r.job_type w.job_type) in
    rw (s, k) refl

matches_both :
    (source kind : String) (r w : WatchedRow)
    → matches source kind r ≡ true
    → matches source kind w ≡ true
    → matches w.source_table w.job_type r ≡ true
matches_both source kind r w h k =
    let s : r.source_table ≡ w.source_table =
      ground (arith, h, k, eq_iff r.source_table source, eq_iff w.source_table source) in
    let t : r.job_type ≡ w.job_type =
      ground (arith, h, k, eq_iff r.job_type kind, eq_iff w.job_type kind) in
    ground (arith, eq_iff r.source_table w.source_table, eq_iff r.job_type w.job_type, s, t)

-- After an upsert the row is found under its key, and all else is found as before.
pub select_watched-upsert :
    (source kind : String) (w : WatchedRow) (rows : List WatchedRow)
    → select_watched source kind (upsert w rows)
      ≡ (if matches source kind w then some w else select_watched source kind rows)
unfolding select_watched upsert
select_watched-upsert source kind w [] = refl
select_watched-upsert source kind w (r ∷ rows) =
    elim (Bool-cases (matches w.source_table w.job_type r)) [
      | inl h ↦ rw (h, matches_same source kind r w h) (of_match (matches source kind w))
      | inr h ↦ rw h (elim (Bool-cases (matches source kind r)) [
        | inl k ↦
            let off : matches source kind w ≡ false =
              ground (arith, matches_both source kind r w, k, h) in
            rw (k, off) refl
        | inr k ↦ rw k (select_watched-upsert source kind w rows)
      ])
    ]
  where
    of_match :
        (b : Bool)
        → (if b then some w else select_watched source kind rows)
          ≡ (if b then some w else if b then some r else select_watched source kind rows)
    of_match true = refl
    of_match false = refl

watched_mapping-select_watched :
    (source kind : String) (rows : List WatchedRow)
    → watched_mapping source kind rows ≡ Option.map mapping_of (select_watched source kind rows)
unfolding watched_mapping select_watched
watched_mapping-select_watched source kind [] = refl
watched_mapping-select_watched source kind (w ∷ rows) =
    ground (arith, watched_mapping-select_watched source kind rows)

watched_mapping-upsert :
    (source kind : String) (w : WatchedRow) (rows : List WatchedRow)
    → watched_mapping source kind (upsert w rows)
      ≡ (if matches source kind w then some (mapping_of w) else watched_mapping source kind rows)
watched_mapping-upsert source kind w rows =
    watched_mapping-select_watched source kind (upsert w rows)
    ∙ ap (Option.map mapping_of) (select_watched-upsert source kind w rows)
    ∙ of_match (matches source kind w)
  where
    of_match :
        (b : Bool)
        → Option.map mapping_of (if b then some w else select_watched source kind rows)
          ≡ (if b then some (mapping_of w) else watched_mapping source kind rows)
    of_match true = refl
    of_match false = sym (watched_mapping-select_watched source kind rows)

-- What a call of `watch` comes to, for a lookup of a source and a kind: without a target column it
-- raises, and with one it ends with a catalog in which the mapping of its arguments is found for its
-- source and the embed jobs, and every other mapping as before.
pub data WatchEnds (a : WatchArgs) (c : Catalog) (source kind : String)
    : Result Catalog → Type 0 where
  refused : (message : String) → a.target_column ≡ none → WatchEnds a c source kind (err message)
  added :
      (target : String) (c' : Catalog)
      → a.target_column ≡ some target
      → watched_mapping source kind c'.db.watched ≡ (
          if str_eq a.source source && str_eq "embed" kind
          then some (record {
            source = a.source;
            job_type = "embed";
            source_column = a.embed_column;
            id_column = a.id_column;
            target_table = value_or a.target_table a.source;
            target_column = target;
            target_id_column = value_or a.target_id_column a.id_column;
          })
          else watched_mapping source kind c.db.watched)
      → WatchEnds a c source kind (ok c')

-- `watch` raises without a target column. With one it registers, for the source and the embed jobs, the
-- mapping of its arguments, the target table and its id column being those of the source where they
-- are not given; every other source or kind is looked up as before.
pub watch-watched_mapping :
    (a : WatchArgs) (c : Catalog) (source kind : String) → WatchEnds a c source kind (watch a c)
unfolding watch
watch-watched_mapping a c source kind = elim (Option-cases a.target_column) [
  | inl e ↦
      let q : watch a c
          ≡ err
              "pgquarry.watch: target_column is required (which column should the embedding land in?)" =
        rw (watch, e) refl in
      subst (WatchEnds a c source kind) (sym q) (refused _ e)
  | inr (target, e) ↦
      let w =
        registered a.source "embed" a.id_column a.embed_column a.target_table target
          a.target_id_column in
      let q : watch a c ≡ ok (watched_as a target c) = rw (watch, e) refl in
      subst (WatchEnds a c source kind) (sym q)
        (added target (watched_as a target c) e (watched_mapping-upsert source kind w c.db.watched))
]
