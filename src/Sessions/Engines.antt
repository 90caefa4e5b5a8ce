-- ===== src/Sessions/Engines.antt =====
-- app/core/database.py: the two engines and the lag of the replica. A session is a parameter.
use commerceops_ai_platform.Base.{
  ⊤, ℕ, ◌*◌, Bool, true, false, ◌&&◌, not, Option, none, some, str_eq, if◌then◌else◌, Result, ok,
  err,
}
use Prim.Native.String.{String, ◌++◌}
use text.Mathlib.Text.{starts_with}
use commerceops_ai_platform.Settings.{Settings, given, str}

-- The arguments of `create_engine`; `connect_args` has `connect_timeout` and `options`, or is empty.
pub record Engine : Type 0 where
  pub url : String
  pub pool_size : ℕ
  pub max_overflow : ℕ
  pub pool_recycle : ℕ
  pub connect_args : Option (ℕ × String)

abbrev pub connect_args : Settings → Option (ℕ × String)
connect_args s =
    if starts_with s.database_url "postgresql"
    then some (
      s.db_connect_timeout_seconds,
      "-c statement_timeout=" ++ str (s.db_statement_timeout_seconds * 1000),
    )
    else none

unfoldable pub build_engine : Settings → String → Engine
build_engine s url = record {
  url = url;
  pool_size = s.db_pool_size;
  max_overflow = s.db_max_overflow;
  pool_recycle = s.db_pool_recycle_seconds;
  connect_args = if starts_with url "postgresql" then connect_args s else none;
}

-- `engine`
abbrev pub engine : Settings → Engine
engine s = build_engine s s.database_url

-- The URL of an engine of its own, where the replica has one.
abbrev pub apart_from : String → Option String → Option String
apart_from database_url none = none
apart_from database_url (some url) = if str_eq url database_url then none else some url

unfoldable pub replica_url : Settings → Option String
replica_url s =
    if s.read_replica_enabled then apart_from s.database_url (given s.database_read_url) else none

abbrev pub engine_on : Settings → Option String → Engine
engine_on s none = engine s
engine_on s (some url) = build_engine s url

-- `read_engine`
unfoldable pub resolve_read_engine : Settings → Engine
unfolding replica_url
resolve_read_engine s = engine_on s (replica_url s)

-- `read_engine is engine`
abbrev pub is_engine : Settings → Bool
is_engine s = elim (replica_url s) [ none ↦ true | some url ↦ false ]

-- A session on the replica: `pg_is_in_recovery()`, and the seconds since the last replayed
-- transaction, where there is one. A query may raise.
pub record ReadSession (S : Type 0) : Type 0 where
  pub open_session : S → S
  pub close : S → S
  pub in_recovery : S → Result ⊤ Bool × S
  pub lag : S → Result ⊤ (Option ℕ) × S

abbrev pub lag_of : {S : Type 0} → Result ⊤ (Option ℕ) × S → Option ℕ × S
lag_of (err e, s) = (none, s)
lag_of (ok none, s) = (some 0, s)
lag_of (ok (some seconds), s) = (some seconds, s)

module _ {S : Type 0} (r : ReadSession S) where
  abbrev pub behind : Result ⊤ Bool × S → Option ℕ × S
  behind (err e, s) = (none, s)
  behind (ok false, s) = (some 0, s)
  behind (ok true, s) = lag_of (r.lag s)

  -- The body of the `try` with its `except`.
  unfoldable pub measured : S → Option ℕ × S
  measured s = behind (r.in_recovery s)

  -- The first argument says whether no session was passed.
  unfoldable pub replica_lag_seconds : Bool → Settings → S → Option ℕ × S
  unfolding measured replica_url
  replica_lag_seconds owns_session settings s =
      if is_engine settings && not settings.read_replica_enabled
      then (none, s)
      else if owns_session
      then (let (seconds, s') = measured (r.open_session s) in (seconds, r.close s'))
      else measured s
