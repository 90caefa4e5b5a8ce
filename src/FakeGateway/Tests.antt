-- ===== src/FakeGateway/Tests.antt =====
-- Concrete charges of one key.
use commerceops_ai_platform.Base.{◌≡◌, refl, true, false, String, []}
use commerceops_ai_platform.FakeGateway.{
  ChargeRequest, Draws, Gateway, find_charge, lookup_step, finish_step,
}
use commerceops_ai_platform.FakeGateway.Once.{
  executed, count_key, IsConsistent, overlapping_charges,
}

abbrev empty : Gateway
empty = record { charges = []; charge_attempts = [] }

abbrev request : ChargeRequest
request = record { order_id = 7; amount = 500 }

abbrev draws : String → Draws
draws transaction_id = record {
  error = false;
  approves = true;
  anonymous_key = "anonymous:1";
  transaction_id = transaction_id;
}

empty-IsConsistent : IsConsistent empty
unfolding count_key find_charge
empty-IsConsistent key = refl

overlapping_charges_example :
    executed "order-7"
      (finish_step "order-7" request
        (draws "t2")
        (finish_step "order-7" request (draws "t1") empty).1).1
    ≡ 2
unfolding lookup_step
overlapping_charges_example =
    overlapping_charges "order-7" request (draws "t1") (draws "t2") empty refl empty-IsConsistent
      refl refl
