-- ===== src/Health.antt =====
-- app/core/service_app.py, `readiness_check`, and the probes of app/payment/gateway_client.py,
-- app/clients/product_client.py and app/clients/payment_client.py. What is asked outside the process
-- is a parameter, over the state `S`.
pub mod Ready
pub mod Probes
mod Tests
use commerceops_ai_platform.Base.{
  ⊤, ℕ, Bool, true, false, ◌&&◌, ◌||◌, not, Option, none, some, ltb, ◌==◌, if◌then◌else◌,
}
use commerceops_ai_platform.Reliability.Breaker.{
  State, closed, open_, half_open, Breaker, read_state,
}
use commerceops_ai_platform.Reliability.Bulkhead.{Bulkhead}
use commerceops_ai_platform.Reliability.Protected.{Guarded}
use commerceops_ai_platform.Payment.{Reply, timed_out, transport_error, response}

-- What a probe reports; the bulkhead only where it does.
pub record Probe : Type 0 where
  pub reachable : Bool
  pub circuit_state : State
  pub bulkhead_in_use : Option ℕ

-- `response.status_code == 200`, and what an exception leaves.
abbrev pub is_reachable : Reply ⊤ → Bool
is_reachable timed_out = false
is_reachable transport_error = false
is_reachable (response status_code body) = status_code == 200

-- `probe` of the gateway client. The other two clients read the state after the request, and do not
-- report the bulkhead.
unfoldable pub probe : {S : Type 0} → (S → ℕ) → (S → Reply ⊤ × S) → Guarded S → Probe × Guarded S
probe clock get (b, (c, s)) =
    let (circuit_state, c') = read_state c (clock s) in
    let (reply, s') = get s in
    (
      record {
        reachable = is_reachable reply;
        circuit_state = circuit_state;
        bulkhead_in_use = some b.in_use;
      },
      (b, (c', s')),
    )

unfoldable pub client_probe :
    {S : Type 0} → (S → ℕ) → (S → Reply ⊤ × S) → Guarded S → Probe × Guarded S
client_probe clock get (b, (c, s)) =
    let (reply, s') = get s in
    let (circuit_state, c') = read_state c (clock s') in
    (
      record {
        reachable = is_reachable reply;
        circuit_state = circuit_state;
        bulkhead_in_use = none;
      },
      (b, (c', s')),
    )

-- The arguments of `register_health_routes`, but for `extra_checks`.
pub record Flags : Type 0 where
  pub check_redis : Bool
  pub check_queue : Bool
  pub check_replica : Bool
  pub check_payment_gateway : Bool

-- `SELECT 1`, `cache_ping`, `queue_reachable`, `gateway_client.probe`, `replica_lag_seconds`, and
-- `extra_checks`, which adds checks of its own.
pub record Outside (S : Type 0) : Type 0 where
  pub select_one : S → Bool × S
  pub cache_ping : S → Bool × S
  pub queue_reachable : S → Bool × S
  pub probe_gateway : S → Probe × S
  pub replica_lag : S → Option ℕ × S
  pub extra_checks : S → S

-- The check of the replica: enabled or not, the lag, and whether the lag is over the limit.
pub record ReplicaCheck : Type 0 where
  pub ok : Bool
  pub enabled : Bool
  pub lag_seconds : Option ℕ
  pub lagging : Bool

-- `checks`; a check that was not asked for is absent.
pub record Checks : Type 0 where
  pub database : Bool
  pub redis : Option Bool
  pub queue : Option Bool
  pub payment_gateway : Option Probe
  pub database_replica : Option ReplicaCheck

pub data Status : Type 0 where
  ok_ degraded : Status

abbrev pub is_lagging : ℕ → Option ℕ → Bool
is_lagging max_lag none = false
is_lagging max_lag (some lag) = ltb max_lag lag

abbrev pub is_some : Option ℕ → Bool
is_some none = false
is_some (some n) = true

-- The replica's entry, where it is enabled.
abbrev pub replica_check : ℕ → Option ℕ → ReplicaCheck
replica_check max_lag lag = record {
  ok = is_some lag;
  enabled = true;
  lag_seconds = lag;
  lagging = is_lagging max_lag lag;
}

abbrev pub no_replica : ReplicaCheck
no_replica = record { ok = true; enabled = false; lag_seconds = none; lagging = false }

abbrev pub is_closed : State → Bool
is_closed closed = true
is_closed open_ = false
is_closed half_open = false

-- `checks.get(name, {}).get("ok", True)`
abbrev pub passes : Option Bool → Bool
passes none = true
passes (some b) = b

-- The test of the gateway's entry; an absent entry is not reachable.
abbrev pub gateway_passes : Option Probe → Bool
gateway_passes none = false
gateway_passes (some p) = p.reachable && is_closed p.circuit_state

-- The tests at the end of `readiness_check`.
unfoldable pub is_degraded : Flags → Checks → Bool
is_degraded f c =
    not c.database
    || (f.check_redis && not (passes c.redis))
    || (f.check_queue && not (passes c.queue))
    || (f.check_payment_gateway && not (gateway_passes c.payment_gateway))

module _ {S : Type 0} (o : Outside S) (f : Flags) (replica_enabled : Bool) (max_lag : ℕ) where
  -- A check that is asked for, and one that is not.
  abbrev pub asked : {A : Type 0} → Bool → (S → A × S) → S → Option A × S
  asked true check s = let (a, s') = check s in (some a, s')
  asked false check s = (none, s)

  abbrev pub check_replica_lag : S → ReplicaCheck × S
  check_replica_lag s =
      let (lag, s') = o.replica_lag s in
      if replica_enabled then (replica_check max_lag lag, s') else (no_replica, s)

  -- The first argument of `readiness_check` is the session of `SELECT 1`.
  unfoldable pub readiness_check : S → (Status × Checks) × S
  unfolding is_degraded
  readiness_check s =
      let (database, s1) = o.select_one s in
      let (redis, s2) = asked f.check_redis o.cache_ping s1 in
      let (queue, s3) = asked f.check_queue o.queue_reachable s2 in
      let (gateway, s4) = asked f.check_payment_gateway o.probe_gateway s3 in
      let (replica, s5) = asked f.check_replica check_replica_lag s4 in
      let checks : Checks = record {
        database = database;
        redis = redis;
        queue = queue;
        payment_gateway = gateway;
        database_replica = replica;
      } in
      ((if is_degraded f checks then degraded else ok_, checks), o.extra_checks s5)
