-- ===== src/Payment/Router.antt =====
-- app/payment/router.py: `POST /payments`, with the validation of app/payment/schemas.py. Amounts are
-- in cents.
use commerceops_ai_platform.Base.{ℕ, Bool, String, List, ltb, if◌then◌else◌, Result, ok, err}
use commerceops_ai_platform.Payment.Data.{GatewayOutcome, PaymentRequest, PaymentResult}
use commerceops_ai_platform.Payment.Service
use commerceops_ai_platform.Payment.Service.{Payment}

-- `Field(gt=0)`
abbrev pub is_request : PaymentRequest → Bool
is_request payload = ltb 0 payload.amount

abbrev pub created : {D : Type 0} → PaymentResult × D → Result ℕ PaymentResult × D
created (result, db) = (ok result, db)

module _ {S : Type 0} (gateway_charge : ℕ → ℕ → S → GatewayOutcome × S) where
  -- An answer, which goes out with 201, or the status of an error.
  unfoldable pub create_payment :
      String → PaymentRequest → List Payment × S → Result ℕ PaymentResult × (List Payment × S)
  create_payment uuid payload db =
      if is_request payload
      then created (Service.charge gateway_charge uuid payload db)
      else (err 422, db)
