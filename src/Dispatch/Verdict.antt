-- ===== src/Dispatch/Verdict.antt =====
-- How a job must end, read off its fields, the result of the provider and the registered mappings;
-- and that a round ends it so, while the server answers.
use pgquarry.Base.{
  ℕ, String, ℤ, ◌≡◌, inl, inr, refl, sym, subst, true, false, Option, none, some, List, [], ◌∷◌,
  str_eq, if◌then◌else◌, Bool-cases, Result, ok, err, Exec, value_or,
}
use pgquarry.Config.{TableMapping}
use pgquarry.Database.{JobRow, done, WatchedRow}
use pgquarry.Store.{ClaimedJob}
use pgquarry.Store.Connection.{Env, Session}
use pgquarry.Store.Effects.{
  Updated, unless, returned, with_result, with_result_text, write_ad_hoc_result-Updated,
  write_ad_hoc_result_text-Updated, write_ad_hoc_result-returned, write_ad_hoc_result_text-returned,
}
use pgquarry.Store.UserTables.{WroteBack, write_back-WroteBack, write_back_text-WroteBack}
use pgquarry.Store.Literal.{Float, vector_literal}
use pgquarry.Watch.{WatchCache, find}
use pgquarry.Watch.Keys.{IsKind}
use pgquarry.Watch.Refines.{watched_mapping, HasKinds, NoFaults, InSync}
use pgquarry.Watch.Lookup.{find-refines, find-InSync, find_session}
use pgquarry.Dispatch.{Written, missing, write_mapped, deliver, embed_job, generated, generate_job}
use pgquarry.Dispatch.Rounds.{deliver_ad_hoc, deliver_mapped}
use pgquarry.Dispatch.Settled.{
  HasRow, IsSettled, fail_job-IsSettled, finish_ad_hoc-IsSettled, finish_mapped-IsSettled,
}

abbrev mapping_verdict : String → String → Option TableMapping → Option String
mapping_verdict kind source none = some (missing kind source)
mapping_verdict kind source (some m) = none

abbrev table_verdict : List WatchedRow → String → Option String → Option String
table_verdict watched kind none = none
table_verdict watched kind (some source) =
    mapping_verdict kind source (watched_mapping source kind watched)

-- A job with a result is done where it is ad hoc, or where its source has a mapping of its kind.
abbrev pub deliver_verdict : List WatchedRow → String → ClaimedJob → Option String
deliver_verdict watched kind job = table_verdict watched kind job.source_table

-- An embed job with no vector ends in error.
abbrev pub embed_verdict : List WatchedRow → ClaimedJob → List Float → Option String
embed_verdict watched job [] =
    some "no embedding produced (see worker log for tokenization details)"
embed_verdict watched job (x ∷ xs) = deliver_verdict watched "embed" job

abbrev text_verdict : List WatchedRow → ClaimedJob → Result String → Option String
text_verdict watched job (err e) = some e
text_verdict watched job (ok text) =
    if str_eq text ""
    then some "no text generated (see worker log for details)"
    else deliver_verdict watched "generate" job

-- A generate job ends in error where there is no provider, where it throws, or returns no text.
abbrev pub generate_verdict :
    List WatchedRow → Option (String → ℤ → Result String) → ℤ → ClaimedJob → Option String
generate_verdict watched none d job =
    some "[worker] generation_model_path is not set in pgquarry.toml"
generate_verdict watched (some generate) d job =
    text_verdict watched job (generate job.input_text (value_or job.max_tokens d))

IsSettled-of_db :
    (job : ClaimedJob) (verdict : Option String) (written : ℕ) (w w' : WatchCache) (r : Written)
    → w'.session.db ≡ w.session.db
    → IsSettled job verdict written w' r
    → IsSettled job verdict written w r
IsSettled-of_db job verdict written w w' r e h = record {
  reported = h.reported;
  counted = h.counted;
  in_sync = h.in_sync;
  watched = rw e at h.watched;
}

module _ (env : Env) (n : NoFaults env) (job : ClaimedJob) (written : ℕ) where
  module _ (value : String) (i : ℤ) (write : TableMapping → Exec Session (Unit {0}))
      (wrote : (m : TableMapping) (s : Session)
        → WroteBack (env.fault s.sent) value i s (write m s).1 (write m s).0)
      (kind : String) (k : IsKind kind) where
    write_mapped-IsSettled :
        (source : String) (w : WatchCache)
        → HasKinds w.session.db.watched
        → HasRow job w.session
        → InSync w
        → IsSettled job
            (mapping_verdict kind source (watched_mapping source kind w.session.db.watched))
            written
            w
            (write_mapped env job kind source write written w)
    unfolding write_mapped
    write_mapped-IsSettled source w h (r, e) v =
        rw (← find-refines env source kind w n h k v)
          (IsSettled-of_db job _ written w w' _ same (of_found (find env source kind w).0 refl))
      where
        w' : WatchCache
        w' = (find env source kind w).1

        same : w'.session.db ≡ w.session.db
        same = (find_session env source kind w).0

        has_row : HasRow job w'.session
        has_row = (r, rw same e)

        v' : InSync w'
        v' = find-InSync env source kind w n h v

        of_found :
            (o : Option TableMapping)
            → (find env source kind w).0 ≡ o
            → IsSettled job
                (mapping_verdict kind source (find env source kind w).0)
                written
                w'
                (write_mapped env job kind source write written w)
        of_found none p =
            rw (p, write_mapped)
              (fail_job-IsSettled env n job written (missing kind source) w' has_row v')
        of_found (some m) p =
            rw (p, write_mapped)
              (finish_mapped-IsSettled env n job written value i (write m) (wrote m) w' has_row v')

    deliver-IsSettled :
        (set : ℕ → JobRow → JobRow) (ad_hoc : Exec Session (Unit {0}))
        → ((t : ℕ) (r : JobRow) → ((set t r).status ≡ done) × ((set t r).error_text ≡ none))
        → ((s : Session) → Updated (env.fault s.sent) job.id (set (env.now s.sent)) s (ad_hoc s).1)
        → ((s : Session) → returned (ad_hoc s).0 ≡ unless (env.fault s.sent) false true)
        → (w : WatchCache) → HasKinds w.session.db.watched
        → HasRow job w.session
        → InSync w
        → IsSettled job
            (deliver_verdict w.session.db.watched kind job)
            written
            w
            (deliver env job kind ad_hoc write written w)
    deliver-IsSettled set ad_hoc sets updated answered w h e v = of_table job.source_table refl
      where
        of_table :
            (o : Option String)
            → job.source_table ≡ o
            → IsSettled job
                (table_verdict w.session.db.watched kind job.source_table)
                written
                w
                (deliver env job kind ad_hoc write written w)
        of_table none p =
            subst
              (λ o.
                IsSettled job (table_verdict w.session.db.watched kind o) written w
                  (deliver env job kind ad_hoc write written w))
              (sym p)
              (rw (deliver_ad_hoc env job kind ad_hoc write written w p)
                (finish_ad_hoc-IsSettled env n job written set ad_hoc sets updated answered w e v))
        of_table (some source) p =
            subst
              (λ o.
                IsSettled job (table_verdict w.session.db.watched kind o) written w
                  (deliver env job kind ad_hoc write written w))
              (sym p)
              (rw (deliver_mapped env job kind ad_hoc write written w source p)
                (write_mapped-IsSettled source w h e v))

  pub embed_job-IsSettled :
      (vector : List Float) (w : WatchCache)
      → HasKinds w.session.db.watched
      → HasRow job w.session
      → InSync w
      → IsSettled job
          (embed_verdict w.session.db.watched job vector)
          written
          w
          (embed_job env job vector written w)
  unfolding embed_job
  embed_job-IsSettled [] w h e v = fail_job-IsSettled env n job written _ w e v
  embed_job-IsSettled (x ∷ xs) w h e v =
      deliver-IsSettled _ _ _ (λ m s. write_back-WroteBack env m _ s (x ∷ xs)) "embed" (inl refl)
        (with_result (vector_literal env.print_float (x ∷ xs))) _ (λ t r. (refl, refl))
        (λ s. write_ad_hoc_result-Updated env job.id s (x ∷ xs))
        (λ s. write_ad_hoc_result-returned env job.id s (x ∷ xs)) w h e v

  generated-IsSettled :
      (o : Result String) (w : WatchCache)
      → HasKinds w.session.db.watched
      → HasRow job w.session
      → InSync w
      → IsSettled job
          (text_verdict w.session.db.watched job o)
          written
          w
          (generated env job o written w)
  unfolding generated
  generated-IsSettled (err m) w h e v = fail_job-IsSettled env n job written m w e v
  generated-IsSettled (ok text) w h e v = elim (Bool-cases (str_eq text "")) [
    | inl p ↦ rw (p, generated) (fail_job-IsSettled env n job written _ w e v)
    | inr p ↦
        rw (p, generated)
          (deliver-IsSettled _ _ _ (λ m s. write_back_text-WroteBack env m _ s text) "generate"
            (inr refl) (with_result_text text) _ (λ t r. (refl, refl))
            (λ s. write_ad_hoc_result_text-Updated env job.id s text)
            (λ s. write_ad_hoc_result_text-returned env job.id s text) w h e v)
  ]

  pub generate_job-IsSettled :
      (provider : Option (String → ℤ → Result String)) (d : ℤ) (w : WatchCache)
      → HasKinds w.session.db.watched
      → HasRow job w.session
      → InSync w
      → IsSettled job
          (generate_verdict w.session.db.watched provider d job)
          written
          w
          (generate_job env provider d job written w)
  unfolding generate_job
  generate_job-IsSettled none d w h e v = fail_job-IsSettled env n job written _ w e v
  generate_job-IsSettled (some generate) d w h e v = generated-IsSettled _ w h e v
