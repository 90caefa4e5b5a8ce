-- ===== src/Clients/PaymentClient/Tests.antt =====
-- A charge of a service that answers at its second request.
use commerceops_ai_platform.Base.{ℕ, zero, suc, true}
use commerceops_ai_platform.Reliability.Breaker
use commerceops_ai_platform.Reliability.Bulkhead
use commerceops_ai_platform.Reliability.Protected.{Setup, Guarded}
use commerceops_ai_platform.Payment.{
  success, approved, timed_out, response, PaymentRequest, PaymentResult,
}
use commerceops_ai_platform.Clients.PaymentClient.{Post, charge}

abbrev setup : Setup ℕ
setup = record {
  timing = record { uniform = λ d s. (d, s); sleep = λ d s. s };
  clock = λ s. s;
  policy = record {
    attempts = 3;
    base_delay = 100;
    multiplier = 2;
    max_delay = 300;
    jitter = true;
  };
}

abbrev paid : PaymentRequest → PaymentResult
paid request = record {
  order_id = request.order_id;
  status = success;
  transaction_id = "t";
  amount = request.amount;
  reason = approved;
}

-- The state is the number of requests.
abbrev post : Post ℕ
post request zero = (timed_out, 1)
post request (suc n) = (response 200 (paid request), suc (suc n))

abbrev request : PaymentRequest
request = record { order_id = 7; amount = 500 }

abbrev ended : PaymentResult × Guarded ℕ
ended = charge setup post request (Bulkhead.init 2, (Breaker.init 5 1000, 0))
