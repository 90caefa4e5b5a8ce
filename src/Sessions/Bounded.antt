-- ===== src/Sessions/Bounded.antt =====
-- What the engines of validated settings are, and what a lag probe leaves behind.
use commerceops_ai_platform.Base.{
  ⊤, ℕ, ◌+◌, ◌*◌, ◌<◌, ◌≡◌, refl, sym, ap, subst, ◌∙◌, Bool, true, false, ◌&&◌, not, Option, none,
  some, if◌then◌else◌, Result, ok, err, arith,
}
use Prim.Native.String.{String, ◌++◌}
use text.Mathlib.Text.{starts_with}
use text.Mathlib.TextLemmas.{append_assoc}
use text.Mathlib.TextPositions.{starts_with-append}
use commerceops_ai_platform.Settings.{Settings, url_of, url_on, or_else, str, validated}
use commerceops_ai_platform.Sessions.Engines.{
  engine_on, connect_args, build_engine, engine, replica_url, resolve_read_engine, ReadSession,
  behind, lag_of, measured, is_engine, replica_lag_seconds,
}

module _ (quote_plus : String → String) where
  url_of-starts_with :
      (port : ℕ) (parts : Option (String × String × String × String)) (url : String)
      → url_of quote_plus port parts ≡ some url
      → starts_with url "postgresql" ≡ true
  url_of-starts_with port none url e = absurd (ground arith)
  url_of-starts_with port (some (host, name, user, password)) url e =
      subst (λ u. starts_with u "postgresql" ≡ true) found
        (starts_with-append "postgresql" (
          "+psycopg://"
          ++ quote_plus user
          ++ ":"
          ++ quote_plus password
          ++ "@"
          ++ host
          ++ ":"
          ++ str port
          ++ "/"
          ++ name))
    where
      found :
          "postgresql"
            ++ ("+psycopg://"
                ++ quote_plus user
                ++ ":"
                ++ quote_plus password
                ++ "@"
                ++ host
                ++ ":"
                ++ str port
                ++ "/"
                ++ name)
          ≡ url
      found =
          sym (
            append_assoc "postgresql" "+psycopg://" (
              quote_plus user
              ++ ":"
              ++ quote_plus password
              ++ "@"
              ++ host
              ++ ":"
              ++ str port
              ++ "/"
              ++ name))
          ∙ ap (λ o. or_else quote_plus "" o) e

  -- Host, name, user and password of the primary are all given.
  abbrev pub HasParts : Settings → Type 0
  HasParts s = (url : String) × (url_on quote_plus s.db_host s ≡ some url)

  abbrev pub bounds : Settings → Option (ℕ × String)
  bounds s = some (
    s.db_connect_timeout_seconds,
    "-c statement_timeout=" ++ str (s.db_statement_timeout_seconds * 1000),
  )

  connects :
      (v : Settings) (url : String) (b : Option (ℕ × String))
      → connect_args v ≡ b
      → (build_engine v url).connect_args ≡ (if starts_with url "postgresql" then b else none)
  unfolding build_engine
  connects v url b h = ap (λ a. if starts_with url "postgresql" then a else none) h

  -- Where host, name, user and password of the primary are given, the engine of validated settings
  -- bounds the time of a connection and of a statement, and so does the engine for reads, unless its
  -- URL is no PostgreSQL one.
  pub engines_bounded :
      (s : Settings)
      → HasParts s
      → let v = validated quote_plus s in
        ((engine v).connect_args ≡ bounds s)
        × ((resolve_read_engine v).connect_args
            ≡ (if starts_with (resolve_read_engine v).url "postgresql" then bounds s else none))
  unfolding validated resolve_read_engine build_engine
  engines_bounded s (url, e) =
      (connects v v.database_url (bounds s) bounded ∙ first, reads (replica_url v))
    where
      v : Settings
      v = validated quote_plus s

      starts : starts_with v.database_url "postgresql" ≡ true
      starts =
          subst (λ o. starts_with (or_else quote_plus s.database_url o) "postgresql" ≡ true) (sym e)
            (unfold url_on in url_of-starts_with s.db_port _ url e)

      bounded : connect_args v ≡ bounds s
      bounded = ap (λ b. if b then bounds s else none) starts

      first : (if starts_with v.database_url "postgresql" then bounds s else none) ≡ bounds s
      first = ap (λ b. if b then bounds s else none) starts

      reads :
          (o : Option String)
          → (engine_on v o).connect_args
            ≡ (if starts_with (engine_on v o).url "postgresql" then bounds s else none)
      reads none = connects v v.database_url (bounds s) bounded
      reads (some u) = connects v u (bounds s) bounded

-- What is known of a session: opening counts, queries do not, and closing counts back where
-- a session is open.
pub record IsCounted {S : Type 0} (r : ReadSession S) (sessions : S → ℕ) : Type 0 where
  pub sessions-open_session : (s : S) → sessions (r.open_session s) ≡ sessions s + 1
  pub sessions-close : (s : S) → 0 < sessions s → sessions (r.close s) + 1 ≡ sessions s
  pub sessions-in_recovery : (s : S) → sessions (r.in_recovery s).1 ≡ sessions s
  pub sessions-lag : (s : S) → sessions (r.lag s).1 ≡ sessions s

module _ {S : Type 0} (r : ReadSession S) (sessions : S → ℕ) (laws : IsCounted r sessions) where
  sessions-lag_of : (o : Result ⊤ (Option ℕ) × S) → sessions (lag_of o).1 ≡ sessions o.1
  sessions-lag_of (err e, s) = refl
  sessions-lag_of (ok none, s) = refl
  sessions-lag_of (ok (some seconds), s) = refl

  sessions-behind : (o : Result ⊤ Bool × S) → sessions (behind r o).1 ≡ sessions o.1
  sessions-behind (err e, s) = refl
  sessions-behind (ok false, s) = refl
  sessions-behind (ok true, s) = sessions-lag_of (r.lag s) ∙ laws.sessions-lag s

  sessions-measured : (s : S) → sessions (measured r s).1 ≡ sessions s
  unfolding measured
  sessions-measured s = sessions-behind (r.in_recovery s) ∙ laws.sessions-in_recovery s

  -- Whichever query raises, a lag probe leaves no session open that it opened itself, and closes none
  -- that was passed.
  pub replica_lag_seconds_balanced :
      (owns_session : Bool) (settings : Settings) (s : S)
      → sessions (replica_lag_seconds r owns_session settings s).1 ≡ sessions s
  unfolding replica_lag_seconds
  replica_lag_seconds_balanced owns_session settings s =
      go (is_engine settings && not settings.read_replica_enabled) owns_session
    where
      go :
          (skip owns : Bool)
          → sessions
              (if skip
                then (none, s)
                else if owns
                then ((measured r (r.open_session s)).0, r.close (measured r (r.open_session s)).1)
                else measured r s).1
            ≡ sessions s
      go true owns = refl
      go false true =
          let one_more = sessions-measured (r.open_session s) ∙ laws.sessions-open_session s in
          omega (
            arith,
            one_more,
            laws.sessions-close (measured r (r.open_session s)).1 (omega (arith, one_more)),
          )
      go false false = sessions-measured s
