-- ===== src/Store/Handle.antt =====
-- The life of the connection of a `JobStore`: `connect` and the destructor. libpq is a parameter.
use Prim.Native.String.{◌++◌ as ◌++ₛ◌}
use pgquarry.Base.{
  ℕ, String, sym, subst, inl, inr, Bool, Option, none, some, List, [], ◌∷◌, Result, ok, err,
  Bool-cases, if◌then◌else◌,
}
use mathlib.Core.List.{append-nil}
use pgquarry.Lifetime.{
  Call, connect as connects, finish, IsReleased, one, nothing, around, Encloses, connection, freed,
}
use pgquarry.Store.Connection.{Session}

pub record PqApi : Type 0 where
  -- `PQconnectdb`
  pub connectdb : String → ℕ
  -- whether `PQstatus` is `CONNECTION_OK`, and `PQerrorMessage`
  pub is_ok : ℕ → Bool
  pub error_message : ℕ → String
  -- what the server has and the connection gives
  pub session : ℕ → Session

-- What `connect` returns or throws, `conn_` after it, and the calls.
unfoldable pub connect : PqApi → String → Result Session × Option ℕ × List Call
connect api conninfo =
    let c = api.connectdb conninfo in
    if api.is_ok c then (ok (api.session c), some c, connects c ∷ []) else (
      err ("JobStore: connection failed: " ++ₛ api.error_message c),
      none,
      connects c ∷ finish c ∷ [],
    )

-- The destructor, as the calls that it makes.
unfoldable pub destroy : Option ℕ → List Call
destroy conn = freed finish conn

-- Whether the server accepts the connection or not, it is closed once.
pub connect-Encloses :
    (api : PqApi) (conninfo : String)
    → let run = connect api conninfo in Encloses run.2 (destroy run.1)
unfolding connect destroy
connect-Encloses api conninfo inner i = elim (Bool-cases (api.is_ok (api.connectdb conninfo))) [
  | inl e ↦ rw (connect, e) (around (connection (api.connectdb conninfo)) i)
  | inr e ↦
      rw (connect, e)
        (one {inner = []} (connection (api.connectdb conninfo)) nothing
          (subst IsReleased (sym (append-nil inner)) i))
]
