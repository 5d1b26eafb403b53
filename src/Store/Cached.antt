-- ===== src/Store/Cached.antt =====
-- `write_back_sql_cache_`: which statement a sequence of writes into user tables executes.
use pgquarry.Base.{
  String, ◌≡◌, inl, inr, refl, sym, ap, ◌∙◌, Bool, true, false, List, [], ◌∷◌, ◌++◌, map, arith,
  str_eq, eq_iff, ◌||◌, ◌&&◌, if◌then◌else◌, All, Bool-cases,
}
use pgquarry.Store.{cache_key}
use pgquarry.Store.Connection.{Env, Session}
use mathlib.Core.Path.{ap₂}
use pgquarry.Watch.{mapping_key}
use pgquarry.Watch.Keys.{IsKind, key_eq}
use pgquarry.Watch.Refines.{NoFaults}
use pgquarry.Store.Chosen.{
  WriteCall, mapping, own_sql, executed, run_calls, key, first_sql, cached-first_sql,
}

-- Two calls for one source and kind of job.
abbrev pub same_target : WriteCall → WriteCall → Bool
same_target c d =
    str_eq (mapping c).source (mapping d).source && str_eq (mapping c).job_type (mapping d).job_type

-- The statement built for the first mapping that is written with the source and the kind of a call.
abbrev pub sql_of_first : WriteCall → List WriteCall → String
sql_of_first d [] = ""
sql_of_first d (c ∷ calls) = if same_target c d then own_sql c else sql_of_first d calls

-- The kind is one that the table of mappings admits.
abbrev pub HasKind : WriteCall → Type 0
HasKind c = IsKind (mapping c).job_type

key-same_target :
    (c d : WriteCall) → HasKind c → HasKind d → str_eq (key c) (key d) ≡ same_target c d
unfolding cache_key mapping_key
key-same_target c d h k =
    key_eq (mapping c).source (mapping d).source (mapping c).job_type (mapping d).job_type h k

first_sql-of_first :
    (d : WriteCall) (calls : List WriteCall)
    → HasKind d
    → All HasKind calls
    → first_sql (key d) calls ≡ sql_of_first d calls
first_sql-of_first d [] h a = refl
first_sql-of_first d (c ∷ calls) h (k, a) =
    rw (key-same_target c d k h, first_sql-of_first d calls h a) refl

executed-of_first :
    (env : Env) (all calls : List WriteCall)
    → All HasKind all
    → All HasKind calls
    → map (λ c. executed env (first_sql (key c) all) c) calls
      ≡ map (λ c. executed env (sql_of_first c all) c) calls
executed-of_first env all [] a b = refl
executed-of_first env all (c ∷ calls) a (h, b) =
    ap (λ sql. executed env sql c ∷ map (λ d. executed env (first_sql (key d) all) d) calls)
      (first_sql-of_first c all h a)
    ∙ ap (λ xs. executed env (sql_of_first c all) c ∷ xs) (executed-of_first env all calls a b)

-- While the server answers, from a fresh connection on: each write into a user table executes the
-- statement that was built for the first mapping written with its source and kind of job, with the
-- value and the row id of its own call. A mapping registered anew thus never comes to be used. The
-- kinds are those that the table of mappings admits.
pub run_calls-first_sql :
    (env : Env) (calls : List WriteCall) (s : Session)
    → NoFaults env
    → s.sql_cache ≡ []
    → All HasKind calls
    → (run_calls env calls s).db.writes
      ≡ s.db.writes ++ map (λ c. executed env (sql_of_first c calls) c) calls
run_calls-first_sql env calls s n e k =
    cached-first_sql env calls s n e
    ∙ ap (λ ws. s.db.writes ++ ws) (executed-of_first env calls calls k k)

-- The statement that is given for the source and the kind of the call's mapping.
abbrev pub given : (String → String → String) → WriteCall → String
given sql_for c = sql_for (mapping c).source (mapping c).job_type

abbrev has_target : WriteCall → List WriteCall → Bool
has_target d [] = false
has_target d (c ∷ calls) = same_target c d || has_target d calls

given_same :
    (sql_for : String → String → String) (c d : WriteCall)
    → same_target c d ≡ true
    → given sql_for c ≡ given sql_for d
given_same sql_for c d h =
    let s : (mapping c).source ≡ (mapping d).source =
      ground (arith, h, eq_iff (mapping c).source (mapping d).source) in
    let k : (mapping c).job_type ≡ (mapping d).job_type =
      ground (arith, h, eq_iff (mapping c).job_type (mapping d).job_type) in
    ap₂ sql_for s k

sql_of_first_own :
    (sql_for : String → String → String) (calls : List WriteCall) (d : WriteCall)
    → All (λ c. given sql_for c ≡ own_sql c) calls
    → has_target d calls ≡ true
    → sql_of_first d calls ≡ given sql_for d
sql_of_first_own sql_for [] d a h = absurd (ground (arith, h))
sql_of_first_own sql_for (c ∷ calls) d (own, a) h = elim (Bool-cases (same_target c d)) [
  | inl e ↦ rw e (sym own ∙ given_same sql_for c d e)
  | inr e ↦ rw e (sql_of_first_own sql_for calls d a (rw e at h))
]

executed_own :
    (env : Env) (sql_for : String → String → String) (before calls : List WriteCall)
    → All (λ c. given sql_for c ≡ own_sql c) before
    → All (λ c. given sql_for c ≡ own_sql c) calls
    → ((d : WriteCall) → has_target d calls ≡ true → has_target d before ≡ true)
    → map (λ c. executed env (sql_of_first c before) c) calls
      ≡ map (λ c. executed env (own_sql c) c) calls
executed_own env sql_for before [] a b h = refl
executed_own env sql_for before (c ∷ calls) a (own, b) h =
    let here : same_target c c ≡ true = ground (
      arith,
      eq_iff (mapping c).source (mapping c).source,
      eq_iff (mapping c).job_type (mapping c).job_type,
    ) in
    let found : has_target c before ≡ true = h c (rw here refl) in
    let now : executed env (sql_of_first c before) c ≡ executed env (own_sql c) c =
      ap (λ sql. executed env sql c) (sql_of_first_own sql_for before c a found ∙ own) in
    ap (λ x. x ∷ map (λ d. executed env (sql_of_first d before) d) calls) now
    ∙ ap (λ xs. executed env (own_sql c) c ∷ xs)
        (executed_own env sql_for before calls a b (λ d g. h d (or_right (same_target c d) _ g)))
  where
    or_right : (x y : Bool) → y ≡ true → x || y ≡ true
    or_right x y g = ground (arith, g)

-- While the server answers, from a fresh connection on: where all mappings written with one source and
-- kind of job are built into one statement, the cache cannot be told from building the statement for
-- each write: every call executes the statement of its own mapping. The kinds are those that the
-- table of mappings admits.
pub run_calls-own_sql :
    (env : Env) (sql_for : String → String → String) (calls : List WriteCall) (s : Session)
    → NoFaults env
    → s.sql_cache ≡ []
    → All HasKind calls
    → All (λ c. given sql_for c ≡ own_sql c) calls
    → (run_calls env calls s).db.writes ≡ s.db.writes ++ map (λ c. executed env (own_sql c) c) calls
run_calls-own_sql env sql_for calls s n e k a =
    run_calls-first_sql env calls s n e k
    ∙ ap (λ ws. s.db.writes ++ ws) (executed_own env sql_for calls calls a a (λ d h. h))
