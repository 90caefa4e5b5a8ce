-- ===== src/Drills.antt =====
-- loadtest/ha_experiment.py: the four drills against a running stack. The clock, the HTTP client, the
-- processes that are started and the stack behind them are parameters; time is in milliseconds.
pub mod Polling
pub mod Failover
pub mod Promotion
pub mod Lag
pub mod Restore
pub mod QueueLoad
pub mod Chaos
mod Tests
use commerceops_ai_platform.Base.{
  ℕ, Bool, true, false, ◌&&◌, Option, none, some, String, leb, ltb, ◌==◌, if◌then◌else◌, Result, ok,
  err, Exec, ◌>>=◌, pure, raise,
}

-- A response with its status and the `id` of its body, where there is one, or an `httpx.HTTPError`.
pub data Answer : Type 0 where
  response : (status_code : ℕ) (id : Option ℕ) → Answer
  http_error : Answer

-- What ends a drill before its verdict: an `HTTPError` or a `KeyError` that nothing catches, or the
-- bound of a loop of this model.
pub data Stop : Type 0 where
  raised_http raised_key out_of_fuel : Stop

-- What every drill uses of the world `S`.
pub record Tools (S : Type 0) : Type 0 where
  pub monotonic : S → ℕ × S
  pub sleep : ℕ → S → S
  pub post_customer : S → Answer × S
  pub post_product : S → Answer × S

abbrev pub is_2xx : ℕ → Bool
is_2xx code = leb 200 code && ltb code 300

module _ {S : Type 0} (tools : Tools S) where
  abbrev pub with_product : Option ℕ → Answer × S → Result Stop (ℕ × ℕ) × S
  with_product customer (http_error, s) = (err raised_http, s)
  with_product none (response code product, s) = (err raised_key, s)
  with_product (some customer) (response code none, s) = (err raised_key, s)
  with_product (some customer) (response code (some product), s) = (ok (customer, product), s)

  abbrev pub with_customer : Answer × S → Result Stop (ℕ × ℕ) × S
  with_customer (http_error, s) = (err raised_http, s)
  with_customer (response code customer, s) = with_product customer (tools.post_product s)

  -- `_seed`: both requests come first, and the ids are read from their bodies afterwards.
  unfoldable pub seed : Exec S Stop (ℕ × ℕ)
  seed s = with_customer (tools.post_customer s)
