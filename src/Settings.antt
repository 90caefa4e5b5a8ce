-- ===== src/Settings.antt =====
-- app/core/config.py: the settings, their defaults, and the three validators that assemble URLs. The
-- fields that are floats of seconds hold milliseconds; `quote_plus` is a parameter.
pub mod Urls
mod Tests
use commerceops_ai_platform.Base.{
  ℕ, zero, suc, ◌/◌, Bool, true, false, Option, none, some, ltb, ◌==◌, if◌then◌else◌,
}
use Prim.Native.Nat.{◌%◌}
use Prim.Native.String.{String, ◌++◌}
use commerceops_ai_platform.Reliability.Retry.{Policy}
use commerceops_ai_platform.Worker

pub record Settings : Type 0 where
  pub database_url : String
  pub app_name : String
  pub environment : String
  pub service_name : String
  pub product_service_url : String
  pub payment_service_url : String
  pub product_connect_timeout_seconds : ℕ
  pub product_read_timeout_seconds : ℕ
  pub product_retry_attempts : ℕ
  pub product_bulkhead_max_concurrency : ℕ
  pub product_bulkhead_acquire_timeout_seconds : ℕ
  pub db_host : Option String
  pub db_port : ℕ
  pub db_name : Option String
  pub db_username : Option String
  pub db_password : Option String
  pub db_pool_size : ℕ
  pub db_max_overflow : ℕ
  pub db_connect_timeout_seconds : ℕ
  pub db_statement_timeout_seconds : ℕ
  pub database_read_url : Option String
  pub db_read_host : Option String
  pub read_replica_enabled : Bool
  pub db_pool_recycle_seconds : ℕ
  pub db_max_replica_lag_seconds : ℕ
  pub db_transient_retry_attempts : ℕ
  pub redis_url : String
  pub redis_host : Option String
  pub redis_port : ℕ
  pub redis_max_connections : ℕ
  pub redis_socket_timeout_seconds : ℕ
  pub cache_ttl_seconds : ℕ
  pub cache_enabled : Bool
  pub aws_region : String
  pub sqs_queue_name : String
  pub sqs_dlq_name : String
  pub sqs_endpoint_url : Option String
  pub sqs_visibility_timeout_seconds : ℕ
  pub sqs_max_receive_count : ℕ
  pub sqs_idempotency_ttl_seconds : ℕ
  pub sqs_connect_timeout_seconds : ℕ
  pub sqs_read_timeout_seconds : ℕ
  pub sqs_publish_retry_attempts : ℕ
  pub publish_retry_base_delay_seconds : ℕ
  pub payment_gateway_url : String
  pub payment_connect_timeout_seconds : ℕ
  pub payment_read_timeout_seconds : ℕ
  pub payment_retry_attempts : ℕ
  pub retry_base_delay_seconds : ℕ
  pub retry_multiplier : ℕ
  pub retry_max_delay_seconds : ℕ
  pub circuit_breaker_failure_threshold : ℕ
  pub circuit_breaker_recovery_seconds : ℕ
  pub payment_bulkhead_max_concurrency : ℕ
  pub payment_bulkhead_acquire_timeout_seconds : ℕ
  pub worker_handler_retry_attempts : ℕ
  pub worker_handler_retry_base_delay_seconds : ℕ
  pub worker_handler_retry_max_delay_seconds : ℕ
  pub idempotency_lease_ttl_seconds : ℕ

abbrev pub defaults : Settings
defaults = record {
  database_url = "postgresql+psycopg://commerceops:commerceops@db:5432/commerceops";
  app_name = "CommerceOps AI Platform";
  environment = "local";
  service_name = "monolith";
  product_service_url = "http://product:8000";
  payment_service_url = "http://payment:8000";
  product_connect_timeout_seconds = 1000;
  product_read_timeout_seconds = 2000;
  product_retry_attempts = 3;
  product_bulkhead_max_concurrency = 20;
  product_bulkhead_acquire_timeout_seconds = 500;
  db_host = none;
  db_port = 5432;
  db_name = none;
  db_username = none;
  db_password = none;
  db_pool_size = 5;
  db_max_overflow = 3;
  db_connect_timeout_seconds = 5;
  db_statement_timeout_seconds = 5;
  database_read_url = none;
  db_read_host = none;
  read_replica_enabled = false;
  db_pool_recycle_seconds = 300;
  db_max_replica_lag_seconds = 5000;
  db_transient_retry_attempts = 2;
  redis_url = "redis://redis:6379/0";
  redis_host = none;
  redis_port = 6379;
  redis_max_connections = 10;
  redis_socket_timeout_seconds = 200;
  cache_ttl_seconds = 15;
  cache_enabled = true;
  aws_region = "us-east-1";
  sqs_queue_name = "order-events";
  sqs_dlq_name = "order-events-dlq";
  sqs_endpoint_url = none;
  sqs_visibility_timeout_seconds = 60;
  sqs_max_receive_count = 5;
  sqs_idempotency_ttl_seconds = 86400;
  sqs_connect_timeout_seconds = 3;
  sqs_read_timeout_seconds = 5;
  sqs_publish_retry_attempts = 3;
  publish_retry_base_delay_seconds = 100;
  payment_gateway_url = "http://payment-gateway:9000";
  payment_connect_timeout_seconds = 1000;
  payment_read_timeout_seconds = 2000;
  payment_retry_attempts = 4;
  retry_base_delay_seconds = 1000;
  retry_multiplier = 2;
  retry_max_delay_seconds = 8000;
  circuit_breaker_failure_threshold = 5;
  circuit_breaker_recovery_seconds = 30000;
  payment_bulkhead_max_concurrency = 10;
  payment_bulkhead_acquire_timeout_seconds = 500;
  worker_handler_retry_attempts = 3;
  worker_handler_retry_base_delay_seconds = 500;
  worker_handler_retry_max_delay_seconds = 2000;
  idempotency_lease_ttl_seconds = 60;
}

-- The policies that the callers of `retry_with_backoff` pass on; all of them leave `jitter` at its
-- default.
abbrev policy : (attempts base_delay max_delay : ℕ) → Settings → Policy
policy attempts base_delay max_delay s = record {
  attempts = attempts;
  base_delay = base_delay;
  multiplier = s.retry_multiplier;
  max_delay = max_delay;
  jitter = true;
}

abbrev pub payment_policy : Settings → Policy
payment_policy s =
    policy s.payment_retry_attempts s.retry_base_delay_seconds s.retry_max_delay_seconds s

abbrev pub product_policy : Settings → Policy
product_policy s =
    policy s.product_retry_attempts s.retry_base_delay_seconds s.retry_max_delay_seconds s

abbrev pub publish_policy : Settings → Policy
publish_policy s =
    policy s.sqs_publish_retry_attempts s.publish_retry_base_delay_seconds s.retry_max_delay_seconds
      s

abbrev pub handler_policy : Settings → Policy
handler_policy s =
    policy s.worker_handler_retry_attempts s.worker_handler_retry_base_delay_seconds
      s.worker_handler_retry_max_delay_seconds s

-- What the worker reads.
abbrev pub worker_config : Settings → Worker.Config
worker_config s = record {
  idempotency = record {
    cache_enabled = s.cache_enabled;
    idempotency_lease_ttl_seconds = s.idempotency_lease_ttl_seconds;
    sqs_idempotency_ttl_seconds = s.sqs_idempotency_ttl_seconds;
  };
  retry = handler_policy s;
  sqs_queue_name = s.sqs_queue_name;
  sqs_dlq_name = s.sqs_dlq_name;
  sqs_visibility_timeout_seconds = s.sqs_visibility_timeout_seconds;
}

-- A number in an f-string.
abbrev digit : ℕ → String
digit n =
    if n == 0
    then "0"
    else if n == 1
    then "1"
    else if n == 2
    then "2"
    else if n == 3
    then "3"
    else if n == 4
    then "4"
    else if n == 5
    then "5"
    else if n == 6
    then "6"
    else if n == 7
    then "7"
    else if n == 8
    then "8"
    else "9"

-- On fuel; a number has no more digits than one above its own value.
pub decimal : ℕ → ℕ → String
decimal zero n = ""
decimal (suc fuel) n = elim (ltb n 10) [
  | true ↦ digit n
  | false ↦ decimal fuel (n / 10) ++ digit (n % 10)
]

unfoldable pub str : ℕ → String
unfolding decimal
str n = decimal (suc n) n

-- The truth of an optional text: an empty one is like none.
abbrev pub given : Option String → Option String
given none = none
given (some String.[]) = none
given (some (String.◌∷◌ c t)) = some (String.◌∷◌ c t)

-- Host, name, user and password, where all four are there.
abbrev pub all_of :
    Option String
    → Option String
    → Option String
    → Option String
    → Option (String × String × String × String)
all_of (some host) (some name) (some user) (some password) = some (host, name, user, password)
all_of _ _ _ _ = none

module _ (quote_plus : String → String) where
  abbrev pub url_of : ℕ → Option (String × String × String × String) → Option String
  url_of port none = none
  url_of port (some (host, name, user, password)) = some (
      "postgresql+psycopg://"
      ++ quote_plus user
      ++ ":"
      ++ quote_plus password
      ++ "@"
      ++ host
      ++ ":"
      ++ str port
      ++ "/"
      ++ name)

  -- The URL of a database on `host`, with the credentials of the primary.
  unfoldable pub url_on : Option String → Settings → Option String
  url_on host s =
      url_of s.db_port
        (all_of (given host) (given s.db_name) (given s.db_username) (given s.db_password))

  abbrev pub or_else : String → Option String → String
  or_else default none = default
  or_else default (some url) = url

  unfoldable pub assemble_database_url_from_parts : Settings → Settings
  unfolding url_on
  assemble_database_url_from_parts s = record s {
    database_url = or_else s.database_url (url_on s.db_host s);
  }

  -- An explicit URL goes first; where the parts are not all there, the field stays as it is.
  abbrev pub read_url : Option String → Option String → Option String → Option String
  read_url (some explicit) field assembled = field
  read_url none field none = field
  read_url none field (some url) = some url

  unfoldable pub assemble_database_read_url_from_parts : Settings → Settings
  unfolding url_on
  assemble_database_read_url_from_parts s = record s {
    database_read_url =
        read_url (given s.database_read_url) s.database_read_url (url_on s.db_read_host s);
  }

  abbrev pub redis_on : String → ℕ → Option String → String
  redis_on default port none = default
  redis_on default port (some host) = "redis://" ++ host ++ ":" ++ str port ++ "/0"

  unfoldable pub assemble_redis_url_from_parts : Settings → Settings
  unfolding str
  assemble_redis_url_from_parts s = record s {
    redis_url = redis_on s.redis_url s.redis_port (given s.redis_host);
  }

  -- The validators run in the order in which the class declares them.
  unfoldable pub validated : Settings → Settings
  unfolding assemble_database_url_from_parts assemble_database_read_url_from_parts
      assemble_redis_url_from_parts
  validated s =
      assemble_redis_url_from_parts
        (assemble_database_read_url_from_parts (assemble_database_url_from_parts s))
