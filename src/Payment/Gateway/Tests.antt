-- ===== src/Payment/Gateway/Tests.antt =====
-- A charge against a gateway that answers its first request with a 503.
use commerceops_ai_platform.Base.{ℕ, zero, suc, ◌+◌, true, some, arith}
use commerceops_ai_platform.Reliability.Breaker
use commerceops_ai_platform.Reliability.Bulkhead
use commerceops_ai_platform.Reliability.Protected.{Setup, Guarded}
use commerceops_ai_platform.Payment.Data.{success, GatewayOutcome, ChargeBody, response}
use commerceops_ai_platform.Payment.Gateway.{Post, charge}
use commerceops_ai_platform.Payment.Gateway.Answers.{Means, charge-Means}

-- The state is the number of requests.
abbrev setup : Setup ℕ
setup = record {
  timing = record { uniform = λ d s. (d, s); sleep = λ d s. s };
  clock = λ s. s;
  policy = record {
    attempts = 3;
    base_delay = 100;
    multiplier = 2;
    max_delay = 300;
    jitter = true;
  };
}

abbrev approval : ChargeBody
approval = record { status = success; transaction_id = some "t" }

abbrev post : Post ℕ
post order_id amount key zero = (response 503 approval, 1)
post order_id amount key (suc n) = (response 200 approval, suc n + 1)

abbrev ended : GatewayOutcome × Guarded ℕ
ended = charge setup post 7 500 (Bulkhead.init 2, (Breaker.init 5 1000, 0))

charge-Means_example : Means setup post 7 500 ended.0.status ended.1.1.1
charge-Means_example =
    charge-Means setup post 7 500 (Bulkhead.init 2) (Breaker.init 5 1000) 0 (omega arith)
