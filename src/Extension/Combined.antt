-- ===== src/Extension/Combined.antt =====
-- Which jobs an INSERT into a watched table enqueues, through the triggers that `watch` and
-- `watch_generate` leave.
use pgquarry.Base.{
  String, ℤ, ◌≡◌, refl, sym, ap, ◌∙◌, subst, true, false, some, List, [], ◌∷◌, ◌++◌, arith, str_eq,
  eq_iff, All,
}
use mathlib.Core.List.{append_assoc}
use pgquarry.Database.{WatchedRow}
use pgquarry.Extension.{
  Trigger, Catalog, WatchArgs, WatchGenerateArgs, registered, upsert, watched_as, watch_both,
  drop_trigger, embed_trigger, generate_trigger,
}
use pgquarry.Extension.Changes.{
  select_watched, Change, Casts, enqueue_job, fires, firing, by_name, insert_named, fire,
  change_row,
}
use pgquarry.Extension.Registered.{select_watched-upsert}
use pgquarry.Extension.Enqueued.{
  Reads, Enqueues, enqueue_one, firing_past, firing_one, fire_one, nothing_more,
}
use pgquarry.Extension.Triggers.{
  OwnTriggers, drop_trigger-All, drop_trigger-append, All-quiet, names_differ, dropped_quiet,
  own_fires,
}

-- The row of an upsert is found under its key, and not under another kind.
found_here :
    (source kind : String) (w : WatchedRow) (rows : List WatchedRow)
    → w.source_table ≡ source
    → w.job_type ≡ kind
    → select_watched source kind (upsert w rows) ≡ some w
found_here source kind w rows s k =
    select_watched-upsert source kind w rows
    ∙ ground (arith, (eq_iff w.source_table source).1 s, (eq_iff w.job_type kind).1 k)

found_past :
    (source kind : String) (w : WatchedRow) (rows : List WatchedRow)
    → str_eq w.job_type kind ≡ false
    → select_watched source kind (upsert w rows) ≡ select_watched source kind rows
found_past source kind w rows h = select_watched-upsert source kind w rows ∙ ground (arith, h)

module _ (casts : Casts) (change : Change) (i : ℤ) where
  enqueue_embed :
      (e : WatchedRow) (text : String) (c : Catalog)
      → select_watched change.table "embed" c.db.watched ≡ some e
      → Reads casts change e i text
      → Enqueues casts change
          (enqueue_job casts change ("embed" ∷ []) c)
          c
          (("embed", text, some i) ∷ [])
  enqueue_embed e text c h r =
      enqueue_one casts change "embed" [] e i text c [] h r
        (λ c' k. unfold enqueue_job in nothing_more casts change c')

  enqueue_both :
      (e g : WatchedRow) (text prompt : String) (c : Catalog)
      → select_watched change.table "embed" c.db.watched ≡ some e
      → select_watched change.table "generate" c.db.watched ≡ some g
      → Reads casts change e i text
      → Reads casts change g i prompt
      → Enqueues casts change
          (enqueue_job casts change ("embed" ∷ "generate" ∷ []) c)
          c
          (("embed", text, some i) ∷ ("generate", prompt, some i) ∷ [])
  enqueue_both e g text prompt c he hg re rg =
      enqueue_one casts change "embed" ("generate" ∷ []) e i text c
        (("generate", prompt, some i) ∷ []) he re
        (λ c1 k.
          enqueue_one casts change "generate" [] g i prompt c1 [] (rw k hg) rg
            (λ c2 l. unfold enqueue_job in nothing_more casts change c2))

module _ (casts : Casts) (change : Change) (a : WatchGenerateArgs) (c : Catalog)
    (embed_target generate_target : String) (i : ℤ) (prompt : String)
    (table : change.table ≡ a.source) (insert : change.is_insert ≡ true)
    (own : OwnTriggers a.source c.triggers) where
  -- The mappings that `watch_generate` registers.
  abbrev pub generate_row : WatchedRow
  generate_row =
      registered a.source "generate" a.id_column a.prompt_column a.generate_target_table
        generate_target a.generate_target_id_column

  abbrev pub embed_row : WatchedRow
  embed_row =
      registered a.source "embed" a.id_column a.embed_column a.embed_target_table embed_target
        a.embed_target_id_column

  -- The other triggers of the source.
  abbrev others : List Trigger
  others =
      drop_trigger (generate_trigger a.source) a.source
        (drop_trigger (embed_trigger a.source) a.source c.triggers)

  -- After `watch_generate`, an INSERT of a row whose id is a bigint and that has both texts enqueues one
  -- embed job with the one text and one generate job with the other, both for that id, whatever was
  -- registered for the source before, where no triggers but those of the extension call `enqueue_job`
  -- for it.
  pub watch_generate-Enqueues :
      (text : String)
      → Reads casts change embed_row i text
      → Reads casts change generate_row i prompt
      → let c' = watch_both a embed_target generate_target c in
        Enqueues casts change
          (change_row casts change c')
          c'
          (("embed", text, some i) ∷ ("generate", prompt, some i) ∷ [])
  unfolding change_row watch_both
  watch_generate-Enqueues text re rg =
      let c' = watch_both a embed_target generate_target c in
      let rows = upsert embed_row c.db.watched in
      let he =
        found_past change.table "embed" generate_row rows refl
        ∙ found_here change.table "embed" embed_row c.db.watched (sym table) refl in
      let hg = found_here change.table "generate" generate_row rows (sym table) refl in
      let combined : Trigger = record {
        name = generate_trigger a.source;
        table = a.source;
        columns = a.embed_column ∷ a.prompt_column ∷ [];
        arguments = "embed" ∷ "generate" ∷ [];
      } in
      let one : firing casts change (others ++ combined ∷ []) ≡ combined ∷ [] =
        firing_past casts change others (combined ∷ [])
          (dropped_quiet casts change a.source table insert c.triggers own)
        ∙ firing_one casts change combined []
            (own_fires casts change a.source table insert combined refl)
        ∙ unfold firing in refl in
      rw one (
        unfold by_name insert_named in
        fire_one casts change combined [] c'
          (("embed", text, some i) ∷ ("generate", prompt, some i) ∷ []) []
          (enqueue_both casts change i embed_row generate_row text prompt c' he hg re rg)
          (λ c1 k. unfold fire in nothing_more casts change c1))

  module _ (b : WatchArgs) (target : String) where
    abbrev later_watch : WatchArgs
    later_watch = record b { source = a.source }

    -- The mapping of the later `watch`.
    abbrev pub later_row : WatchedRow
    later_row =
        registered a.source "embed" b.id_column b.embed_column b.target_table target
          b.target_id_column

    abbrev kept_trigger : Trigger
    kept_trigger = record {
      name = generate_trigger a.source;
      table = a.source;
      columns = a.embed_column ∷ a.prompt_column ∷ [];
      arguments = "embed" ∷ "generate" ∷ [];
    }

    -- `watch` drops the trigger of its own name only.
    kept_by_watch :
        drop_trigger (embed_trigger a.source) a.source (others ++ kept_trigger ∷ [])
        ≡ drop_trigger (embed_trigger a.source) a.source others ++ kept_trigger ∷ []
    kept_by_watch =
        drop_trigger-append (embed_trigger a.source) a.source others (kept_trigger ∷ [])
        ∙ ap (λ ts. drop_trigger (embed_trigger a.source) a.source others ++ ts)
            (unfold drop_trigger in rw (names_differ a.source) refl)

    -- `watch` after `watch_generate` leaves the combined trigger: an INSERT of a row whose id is a
    -- bigint and that has the texts enqueues the embed job twice, and the generate job, where no
    -- triggers but those of the extension call `enqueue_job` for the source. The trigger of `watch`
    -- fires first, as Postgres puts its name before that of the combined one.
    pub watch_after-Enqueues :
        (text : String)
        → Reads casts change later_row i text
        → Reads casts change generate_row i prompt
        → casts.before (generate_trigger a.source) (embed_trigger a.source) ≡ false
        → let c' = watched_as later_watch target (watch_both a embed_target generate_target c) in
          Enqueues casts change
            (change_row casts change c')
            c'
            (("embed", text, some i) ∷ ("embed", text, some i) ∷ ("generate", prompt, some i) ∷ [])
    unfolding change_row watch_both
    watch_after-Enqueues text re rg last =
        let c' = watched_as later_watch target (watch_both a embed_target generate_target c) in
        let rows = upsert generate_row (upsert embed_row c.db.watched) in
        let he = found_here change.table "embed" later_row rows (sym table) refl in
        let hg =
          found_past change.table "generate" later_row rows refl
          ∙ found_here change.table "generate" generate_row (upsert embed_row c.db.watched)
              (sym table) refl in
        let dropped = drop_trigger (embed_trigger a.source) a.source others in
        let quiet : All (λ t. fires casts change t ≡ false) dropped =
          All-quiet _ (λ t. fires casts change t ≡ false) (λ t (f, g). f) _
            (drop_trigger-All (λ t. fires casts change t ≡ false) (embed_trigger a.source) a.source
              others (dropped_quiet casts change a.source table insert c.triggers own)) in
        let added : Trigger = record {
          name = embed_trigger a.source;
          table = a.source;
          columns = b.embed_column ∷ [];
          arguments = "embed" ∷ [];
        } in
        let all : c'.triggers ≡ dropped ++ kept_trigger ∷ added ∷ [] =
          ap (λ ts. ts ++ added ∷ []) kept_by_watch
          ∙ append_assoc dropped (kept_trigger ∷ []) (added ∷ []) in
        let once = ("embed", text, some i) ∷ [] in
        let both = ("embed", text, some i) ∷ ("generate", prompt, some i) ∷ [] in
        let fires_own = own_fires casts change a.source table insert in
        let two : firing casts change c'.triggers ≡ kept_trigger ∷ added ∷ [] =
          ap (firing casts change) all
          ∙ firing_past casts change dropped (kept_trigger ∷ added ∷ []) quiet
          ∙ firing_one casts change kept_trigger (added ∷ []) (fires_own kept_trigger refl)
          ∙ ap (λ ts. kept_trigger ∷ ts)
              (firing_one casts change added [] (fires_own added refl) ∙ unfold firing in refl) in
        let sorted : by_name casts change (kept_trigger ∷ added ∷ []) ≡ added ∷ kept_trigger ∷ [] =
          unfold by_name insert_named in rw last refl in
        subst (λ ts. Enqueues casts change (fire casts change ts c') c' (once ++ both))
          (sym (ap (by_name casts change) two ∙ sorted))
          (fire_one casts change added (kept_trigger ∷ []) c' once both
            (enqueue_embed casts change i later_row text c' he re)
            (λ c1 k.
              fire_one casts change kept_trigger [] c1 both []
                (enqueue_both casts change i later_row generate_row text prompt c1 (rw k he)
                  (rw k hg) re rg)
                (λ c2 l. unfold fire in nothing_more casts change c2)))
