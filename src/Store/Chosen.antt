-- ===== src/Store/Chosen.antt =====
-- `write_back_sql_cache_`, by its keys: each write executes the statement of the first call with its key.
use pgquarry.Base.{
  String, ℤ, ◌≡◌, inl, inr, refl, sym, ap, ◌∙◌, false, Option, none, some, List, [], ◌∷◌, ◌++◌, map,
  arith, str_eq, eq_iff, if◌then◌else◌, Bool-cases, Option-cases,
}
use mathlib.Core.List.{append_assoc, append-nil}
use pgquarry.Config.{TableMapping, same_table}
use pgquarry.Database.{Write, write_user_table}
use pgquarry.Store.{cache_key, find_sql, cached_sql, write_back, write_back_text}
use pgquarry.Store.Connection.{Env, Session, statement, failing_with}
use pgquarry.Watch.Refines.{NoFaults}
use pgquarry.Store.UserTables.{cached_sql_db}
use pgquarry.Store.Literal.{Float, vector_literal}
use pgquarry.Writeback.{
  build_update_sql, build_upsert_sql, build_update_sql_text, build_upsert_sql_text,
}

-- A call of `write_back` or of `write_back_text`.
pub data WriteCall : Type 0 where
  vector : TableMapping → ℤ → List Float → WriteCall
  text : TableMapping → ℤ → String → WriteCall

abbrev pub mapping : WriteCall → TableMapping
mapping (vector m i v) = m
mapping (text m i t) = m

-- The statement that is built for the mapping of the call.
abbrev pub own_sql : WriteCall → String
own_sql (vector m i v) = if same_table m then build_update_sql m else build_upsert_sql m
own_sql (text m i t) = if same_table m then build_update_sql_text m else build_upsert_sql_text m

abbrev pub executed : Env → String → WriteCall → Write
executed env sql (vector m i v) = record {
  sql = sql;
  value = vector_literal env.print_float v;
  row_id = i;
}
executed env sql (text m i t) = record { sql = sql; value = t; row_id = i }

abbrev pub run_call : Env → WriteCall → Session → Session
run_call env (vector m i v) s = (write_back env m i v s).1
run_call env (text m i t) s = (write_back_text env m i t s).1

abbrev pub run_calls : Env → List WriteCall → Session → Session
run_calls env [] s = s
run_calls env (c ∷ calls) s = run_calls env calls (run_call env c s)

abbrev pub key : WriteCall → String
key c = cache_key (mapping c)

-- A call executes what `cached_sql` gives, and keeps its cache.
run_call_db :
    (env : Env) (c : WriteCall) (s : Session)
    → env.fault s.sent ≡ none
    → let r = cached_sql (mapping c) (own_sql c) s in
      ((run_call env c s).db.writes ≡ s.db.writes ++ executed env r.0 c ∷ [])
      × ((run_call env c s).sql_cache ≡ r.1.sql_cache)
unfolding write_back write_back_text failing_with statement write_user_table
run_call_db env (vector m i v) s f = ground (arith, f, cached_sql_db m (own_sql (vector m i v)) s)
run_call_db env (text m i t) s f = ground (arith, f, cached_sql_db m (own_sql (text m i t)) s)

-- The statement of the first call with the key.
abbrev pub first_sql : String → List WriteCall → String
first_sql k [] = ""
first_sql k (c ∷ calls) = if str_eq (key c) k then own_sql c else first_sql k calls

-- The statement in the cache, or else that of the first call.
abbrev pub chosen : String → Option String → List WriteCall → String
chosen k none calls = first_sql k calls
chosen k (some sql) calls = sql

chosen_now :
    (c : WriteCall) (calls : List WriteCall) (s : Session)
    → (cached_sql (mapping c) (own_sql c) s).0
      ≡ chosen (key c) (find_sql (key c) s.sql_cache) (c ∷ calls)
unfolding cached_sql
chosen_now c calls s = elim (Option-cases (find_sql (key c) s.sql_cache)) [
  | inl e ↦ rw (cached_sql, e) (ground (arith, eq_iff (key c) (key c)))
  | inr (sql, e) ↦ rw (cached_sql, e) refl
]

chosen_later :
    (k : String) (c : WriteCall) (calls : List WriteCall) (s : Session)
    → chosen k (find_sql k (cached_sql (mapping c) (own_sql c) s).1.sql_cache) calls
      ≡ chosen k (find_sql k s.sql_cache) (c ∷ calls)
unfolding cached_sql
chosen_later k c calls s = elim (Option-cases (find_sql (key c) s.sql_cache)) [
  | inl e ↦
      rw (cached_sql, e)
        (elim (Bool-cases (str_eq (key c) k)) [
          | inl h ↦
              let q : key c ≡ k = ground (arith, eq_iff (key c) k, h) in
              rw (h, sym (ap (λ x. find_sql x s.sql_cache) q) ∙ e, h) refl
          | inr h ↦ rw h (off h)
        ])
  | inr (sql, e) ↦
      rw (cached_sql, e)
        (elim (Bool-cases (str_eq (key c) k)) [
          | inl h ↦
              let q : key c ≡ k = ground (arith, eq_iff (key c) k, h) in
              rw (sym (ap (λ x. find_sql x s.sql_cache) q) ∙ e) refl
          | inr h ↦ off h
        ])
]
  where
    off :
        str_eq (key c) k ≡ false
        → chosen k (find_sql k s.sql_cache) calls ≡ chosen k (find_sql k s.sql_cache) (c ∷ calls)
    off h = of_cache (find_sql k s.sql_cache)
      where
        of_cache : (o : Option String) → chosen k o calls ≡ chosen k o (c ∷ calls)
        of_cache none = rw h refl
        of_cache (some sql) = refl

map_same :
    {A B : Type 0} (f g : A → B) → ((a : A) → f a ≡ g a) → (xs : List A) → map f xs ≡ map g xs
map_same f g h [] = refl
map_same f g h (x ∷ xs) = rw (h x, map_same f g h xs) refl

run_calls-chosen :
    (env : Env) (calls : List WriteCall) (s : Session)
    → NoFaults env
    → (run_calls env calls s).db.writes
      ≡ s.db.writes
        ++ map (λ c. executed env (chosen (key c) (find_sql (key c) s.sql_cache) calls) c) calls
run_calls-chosen env [] s n = sym (append-nil s.db.writes)
run_calls-chosen env (c ∷ calls) s n =
    let s' = run_call env c s in
    let (w, k) = run_call_db env c s (n s.sent) in
    let now : executed env (cached_sql (mapping c) (own_sql c) s).0 c
        ≡ executed env (chosen (key c) (find_sql (key c) s.sql_cache) (c ∷ calls)) c =
      ap (λ sql. executed env sql c) (chosen_now c calls s) in
    let rest =
      map (λ d. executed env (chosen (key d) (find_sql (key d) s'.sql_cache) calls) d) calls in
    let later : rest
        ≡ map (λ d. executed env (chosen (key d) (find_sql (key d) s.sql_cache) (c ∷ calls)) d)
            calls =
      map_same (λ d. executed env (chosen (key d) (find_sql (key d) s'.sql_cache) calls) d)
        (λ d. executed env (chosen (key d) (find_sql (key d) s.sql_cache) (c ∷ calls)) d)
        (λ d.
          ap (λ sql. executed env sql d)
            (ap (λ cache. chosen (key d) (find_sql (key d) cache) calls) k
              ∙ chosen_later (key d) c calls s))
        calls in
    let here = executed env (cached_sql (mapping c) (own_sql c) s).0 c in
    run_calls-chosen env calls s' n
    ∙ ap (λ ws. ws ++ rest) w
    ∙ append_assoc s.db.writes (here ∷ []) rest
    ∙ ap (λ x. s.db.writes ++ x ∷ rest) now
    ∙ ap
        (λ ws.
          s.db.writes
          ++ executed env (chosen (key c) (find_sql (key c) s.sql_cache) (c ∷ calls)) c ∷ ws)
        later

pub cached-first_sql :
    (env : Env) (calls : List WriteCall) (s : Session)
    → NoFaults env
    → s.sql_cache ≡ []
    → (run_calls env calls s).db.writes
      ≡ s.db.writes ++ map (λ c. executed env (first_sql (key c) calls) c) calls
cached-first_sql env calls s n e =
    run_calls-chosen env calls s n
    ∙ ap
        (λ cache.
          s.db.writes
          ++ map (λ c. executed env (chosen (key c) (find_sql (key c) cache) calls) c) calls)
        e
