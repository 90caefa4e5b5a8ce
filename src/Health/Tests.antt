-- ===== src/Health/Tests.antt =====
-- A gateway that is probed while its circuit is open, and a service that depends on it.
use commerceops_ai_platform.Base.{ℕ, ◌≡◌, refl, ◌↔◌, true, false, some}
use commerceops_ai_platform.Reliability.Breaker
use commerceops_ai_platform.Reliability.Breaker.{open_, half_open, Breaker, before_call, read_state}
use commerceops_ai_platform.Reliability.Bulkhead
use commerceops_ai_platform.Reliability.Protected.{Guarded}
use commerceops_ai_platform.Health.{Flags, Outside, ok_, degraded, readiness_check}
use commerceops_ai_platform.Health.Ready.{IsUp, readiness_check_lem}

-- The circuit was opened at 100 for 1000; the state is the time, and a request takes 50.
abbrev opened : Breaker
opened = record (Breaker.init 5 1000) { state = open_; opened_at = 100 }

abbrev guarded : Guarded ℕ
guarded = (Bulkhead.init 2, (opened, 1200))

abbrev flags : Flags
flags = record {
  check_redis = true;
  check_queue = true;
  check_replica = true;
  check_payment_gateway = true;
}

abbrev outside : Outside ℕ
outside = record {
  select_one = λ s. (true, s);
  cache_ping = λ s. (true, s);
  queue_reachable = λ s. (true, s);
  probe_gateway =
      λ s. (record { reachable = true; circuit_state = half_open; bulkhead_in_use = some 0 }, s);
  replica_lag = λ s. (some 9, s);
  extra_checks = λ s. s;
}

-- Everything answers, but the circuit is half open.
half_open_test : (readiness_check outside flags true 5 0).0.0 ≡ degraded
unfolding readiness_check
half_open_test = refl

readiness_check_lem_example :
    (((readiness_check outside flags true 5 0).0.0 ≡ ok_) ↔ IsUp outside flags 0)
    × ((readiness_check outside flags true 5 0).0.0
        ≡ (readiness_check outside (record flags { check_replica = false }) false 1 0).0.0)
readiness_check_lem_example = readiness_check_lem outside flags true 5 0 false false 1
