-- ===== src/Store/Connection.antt =====
-- A connection of a worker: the server that answers it, and what the worker keeps beside it.
use Prim.Native.String.{◌++◌}
use pgquarry.Base.{ℕ, suc, String, ℤ, Bool, Option, none, some, List, Result, ok, err, Exec}
use pgquarry.Database.{Database, Status}

-- The server and the C++ library, as parameters. Statements are numbered from 0.
pub record Env : Type 0 where
  -- the message with which the n-th statement fails
  pub fault : ℕ → Option String
  -- now() in the n-th statement
  pub now : ℕ → ℕ
  -- the rows that other sessions hold during the n-th statement, by id
  pub locked : ℕ → ℕ → Bool
  -- the order in which the n-th statement returns rows, by a rank of their ids
  pub rank : ℕ → ℕ → ℕ
  -- what a Postgres interval such as "7 days" is, in the units of `now`
  pub interval_length : String → Option ℕ
  -- what reading an empty optional id gives
  pub unset_id : ℤ
  -- the error for a text that is no interval
  pub bad_interval : String
  -- `std::to_string` of an id
  pub print_id : ℕ → String
  -- how an output stream prints a float of a given bit pattern
  pub print_float : ℕ → String

-- `JobStore`: the database that it is connected to, the number of statements sent,
-- `write_back_sql_cache_`, and the rows that `purge_done` has logged.
pub record Session : Type 0 where
  pub db : Database
  pub sent : ℕ
  pub sql_cache : List (String × String)
  pub purge_log : List (ℕ × Status × ℕ)

-- `PQexecParams`: the next statement, which changes nothing if it fails.
abbrev pub answer {ℓ} : {A : Type ℓ} → Option String → Database × A → Session → Result A × Session
answer (some e) (db', a) s = (err e, record s { sent = suc s.sent })
answer none (db', a) s = (ok a, record s { db = db'; sent = suc s.sent })

module _ (env : Env) where
  unfoldable pub statement : {A : Type 0} → (ℕ → Database → Database × A) → Exec Session A
  statement run s = answer (env.fault s.sent) (run s.sent s.db) s

-- `throw std::runtime_error(what + PQerrorMessage(conn_))`.
abbrev pub prefixed {ℓ} : {A : Type ℓ} → String → Result A → Result A
prefixed what (ok a) = ok a
prefixed what (err e) = err (what ++ e)

unfoldable pub failing_with : {A : Type 0} → String → Exec Session A → Exec Session A
failing_with what m s = let (r, s') = m s in (prefixed what r, s')

-- A failure that is only logged.
unfoldable pub quietly : {A : Type 0} → Exec Session A → Session → Session
quietly m s = (m s).1
