-- ===== src/Clients/ProductClient/Tests.antt =====
-- A reservation of a service that answers at its second request.
use commerceops_ai_platform.Base.{ℕ, zero, suc, true, List, [], ◌∷◌, Result, arith}
use commerceops_ai_platform.Reliability.Breaker
use commerceops_ai_platform.Reliability.Bulkhead
use commerceops_ai_platform.Reliability.Protected.{Setup, Guarded}
use commerceops_ai_platform.Product.{Reserved}
use commerceops_ai_platform.Product.Stock.{Item}
use commerceops_ai_platform.Payment.{transport_error, response}
use commerceops_ai_platform.Order.{ProductError}
use commerceops_ai_platform.Clients.ProductClient.{PostItems, reserve}
use commerceops_ai_platform.Clients.ProductClient.Answers.{Means, reserve-Means}

abbrev setup : Setup ℕ
setup = record {
  timing = record { uniform = λ d s. (d, s); sleep = λ d s. s };
  clock = λ s. s;
  policy = record {
    attempts = 3;
    base_delay = 100;
    multiplier = 2;
    max_delay = 300;
    jitter = true;
  };
}

abbrev line : Reserved
line = record { product_id = 4; quantity = 2; unit_price = 100 }

-- The state is the number of requests.
abbrev post : PostItems ℕ (List Reserved)
post items zero = (transport_error, 1)
post items (suc n) = (response 200 (line ∷ []), suc (suc n))

abbrev basket : List Item
basket = (4, 2) ∷ []

abbrev ended : Result ProductError (List Reserved) × Guarded ℕ
ended = reserve setup post basket (Bulkhead.init 2, (Breaker.init 5 1000, 0))

reserve-Means_example : Means setup post basket ended.0 ended.1.1.1
reserve-Means_example =
    reserve-Means setup post basket (Bulkhead.init 2) (Breaker.init 5 1000) 0 (omega arith)
