-- ===== src/Sessions/Tests.antt =====
-- An engine on assembled settings, and a probe whose second query raises.
use commerceops_ai_platform.Base.{ℕ, suc, ◌-◌, ◌≡◌, refl, true, false, some, ok, err, arith}
use commerceops_ai_platform.Settings.{Settings, defaults, url_on}
use commerceops_ai_platform.Sessions.Engines.{ReadSession, replica_lag_seconds}
use commerceops_ai_platform.Sessions.Bounded.{HasParts, IsCounted}

abbrev injected : Settings
injected = record defaults {
  db_host = some "primary";
  db_read_host = some "replica";
  read_replica_enabled = true;
  db_name = some "orders";
  db_username = some "app";
  db_password = some "secret";
}

has_parts : HasParts (λ t. t) injected
unfolding url_on
has_parts = (_, refl)

-- The state counts the open sessions.
abbrev replica : ReadSession ℕ
replica = record {
  open_session = λ n. suc n;
  close = λ n. n - 1;
  in_recovery = λ n. (ok true, n);
  lag = λ n. (err tt, n);
}

replica-IsCounted : IsCounted replica (λ n. n)
replica-IsCounted = record {
  sessions-open_session = λ n. omega arith;
  sessions-close = λ n h. omega (arith, h);
  sessions-in_recovery = λ n. refl;
  sessions-lag = λ n. refl;
}

-- A server that is no standby is reported as up to date.
abbrev primary : ReadSession ℕ
primary = record replica { in_recovery = λ n. (ok false, n) }

primary_test : (replica_lag_seconds primary true injected 4).0 ≡ some 0
unfolding replica_lag_seconds
primary_test = refl
