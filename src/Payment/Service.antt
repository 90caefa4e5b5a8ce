-- ===== src/Payment/Service.antt =====
-- app/payment/service.py, `charge`: the stored result of an order, or a charge through the gateway
-- that is stored. The random UUID is an argument; the database does not fail.
pub mod Stored
pub mod Race
mod Tests
use commerceops_ai_platform.Base.{
  ℕ, Bool, true, false, Option, none, some, String, List, [], ◌∷◌, ◌++◌, ◌==◌, if◌then◌else◌,
}
use commerceops_ai_platform.Payment.Data.{
  Status, Reason, GatewayOutcome, PaymentRequest, PaymentResult,
}

-- A row of `payments`; the fields are those of the result that it answers with.
abbrev pub Payment : Type 0
Payment = PaymentResult

-- `select(Payment).where(Payment.order_id == order_id)`
unfoldable pub find_payment : ℕ → List Payment → Option Payment
find_payment order_id [] = none
find_payment order_id (row ∷ rows) =
    if row.order_id == order_id then some row else find_payment order_id rows

-- `outcome.transaction_id or str(uuid.uuid4())`: an empty text is false too.
abbrev pub or_uuid : Option String → String → String
or_uuid none uuid = uuid
or_uuid (some String.[]) uuid = uuid
or_uuid (some (String.◌∷◌ c s)) uuid = String.◌∷◌ c s

-- The row of a request and its outcome.
abbrev pub row_of : String → PaymentRequest → GatewayOutcome → Payment
row_of uuid payload outcome = record {
  order_id = payload.order_id;
  status = outcome.status;
  transaction_id = or_uuid outcome.transaction_id uuid;
  amount = payload.amount;
  reason = outcome.reason;
}

module _ {S : Type 0} (gateway_charge : ℕ → ℕ → S → GatewayOutcome × S) where
  unfoldable pub store :
      PaymentRequest
      → String
      → List Payment
      → GatewayOutcome × S
      → PaymentResult × (List Payment × S)
  store payload uuid rows (outcome, s) =
      let row = row_of uuid payload outcome in (row, (rows ++ row ∷ [], s))

  unfoldable pub charge :
      String → PaymentRequest → List Payment × S → PaymentResult × (List Payment × S)
  unfolding store find_payment
  charge uuid payload (rows, s) = elim (find_payment payload.order_id rows) [
    | some existing ↦ (existing, (rows, s))
    | none ↦ store payload uuid rows (gateway_charge payload.order_id payload.amount s)
  ]
