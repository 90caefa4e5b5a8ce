-- ===== src/FakeGateway/Chaos.antt =====
-- The chaos settings of fake_gateway/main.py and their endpoints. Rates and what `random.random()`
-- gives are in millionths; a draw is below a million.
use commerceops_ai_platform.Base.{
  ℕ, ◌+◌, ◌<◌, ◌≡◌, refl, inl, inr, Bool, true, false, Bool-cases, ◌&&◌, Option, none, some, String,
  ltb, if◌then◌else◌, Result, ok, err, arith,
}
use commerceops_ai_platform.FakeGateway.{
  ChargeRequest, ChargeResponse, Draws, Gateway, Unavailable, unavailable, key_of, lookup_step,
  finish_step, charge,
}
use commerceops_ai_platform.FakeGateway

pub record ChaosConfig : Type 0 where
  pub error_rate : ℕ
  pub hang_rate : ℕ
  pub hang_ms : ℕ
  pub latency_ms : ℕ
  pub success_rate : ℕ

-- `ChaosConfig()`
abbrev pub no_chaos : ChaosConfig
no_chaos = record {
  error_rate = 0;
  hang_rate = 0;
  hang_ms = 10000;
  latency_ms = 0;
  success_rate = 800000;
}

-- What one request draws.
pub record Random : Type 0 where
  pub hang_draw : ℕ
  pub error_draw : ℕ
  pub success_draw : ℕ
  pub anonymous_key : String
  pub transaction_id : String

-- The process: the idempotency store beside `_chaos`.
pub record Server : Type 0 where
  pub gateway : Gateway
  pub chaos : ChaosConfig

-- `rate and random.random() < rate`
abbrev pub happens : (rate draw : ℕ) → Bool
happens rate draw = ltb 0 rate && ltb draw rate

abbrev pub draws_of : ChaosConfig → Random → Draws
draws_of c r = record {
  error = happens c.error_rate r.error_draw;
  approves = ltb r.success_draw c.success_rate;
  anonymous_key = r.anonymous_key;
  transaction_id = r.transaction_id;
}

-- How long a request that is no replay sleeps.
abbrev pub delay_ms : ChaosConfig → Random → ℕ
delay_ms c r = c.latency_ms + (if happens c.hang_rate r.hang_draw then c.hang_ms else 0)

abbrev pub held_ms : Option ChargeResponse → ChaosConfig → Random → ℕ
held_ms none c r = delay_ms c r
held_ms (some existing) c r = 0

-- `charge` under the current settings: how long it sleeps, and its answer.
unfoldable pub charge_under :
    Option String → ChargeRequest → Random → Server → ℕ × Result Unavailable ChargeResponse × Server
charge_under idempotency_key request r server =
    let d = draws_of server.chaos r in
    let (answer, gateway) = charge idempotency_key request d server.gateway in
    (
      held_ms (lookup_step (key_of idempotency_key d) server.gateway) server.chaos r,
      answer,
      record server { gateway = gateway },
    )

unfoldable pub set_chaos : ChaosConfig → Server → ChaosConfig × Server
set_chaos config server = (config, record server { chaos = config })

unfoldable pub get_chaos : Server → ChaosConfig
get_chaos server = server.chaos

unfoldable pub reset_server : Server → Server
reset_server server = record { gateway = FakeGateway.reset server.gateway; chaos = no_chaos }

-- Whatever chaos is set, a key with a stored response gets it back at once, marked as replayed, and
-- nothing changes.
pub charge_under_replays :
    (idempotency_key : Option String) (request : ChargeRequest) (r : Random) (server : Server)
    (existing : ChargeResponse)
    → lookup_step (key_of idempotency_key (draws_of server.chaos r)) server.gateway ≡ some existing
    → charge_under idempotency_key request r server
      ≡ (0, ok (record existing { replayed = true }), server)
unfolding charge_under charge
charge_under_replays idempotency_key request r server existing found = rw (found, charge) refl

-- A key without a stored response waits as long as the settings say. A drawn 503 leaves the server as
-- it was; otherwise the key is charged, and approved as drawn, and the settings stay.
pub charge_under_fresh :
    (idempotency_key : Option String) (request : ChargeRequest) (r : Random) (server : Server)
    → let d = draws_of server.chaos r in
      lookup_step (key_of idempotency_key d) server.gateway ≡ none
      → charge_under idempotency_key request r server ≡ (
          if d.error then (delay_ms server.chaos r, err unavailable, server) else (
            delay_ms server.chaos r,
            (finish_step (key_of idempotency_key d) request d server.gateway).0,
            record server {
              gateway = (finish_step (key_of idempotency_key d) request d server.gateway).1;
            },
          ))
unfolding charge_under charge finish_step
charge_under_fresh idempotency_key request r server fresh =
    elim (Bool-cases (draws_of server.chaos r).error) [
      | inl refused ↦ rw (fresh, charge) (rw refused refl)
      | inr through ↦ rw (fresh, charge) (rw through refl)
    ]

-- At the rate 0 no 503 is ever drawn, and at the rate 1 always.
pub error_rate_extremes :
    (c : ChaosConfig) (r : Random)
    → r.error_draw < 1000000
    → ((draws_of (record c { error_rate = 0 }) r).error ≡ false)
      × ((draws_of (record c { error_rate = 1000000 }) r).error ≡ true)
error_rate_extremes c r h = (ground arith, ground (arith, h))
