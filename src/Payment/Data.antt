-- ===== src/Payment/Data.antt =====
-- The constants and data classes of app/payment/gateway_client.py, app/payment/schemas.py and
-- app/payment/models.py, and the HTTP exchange with the gateway.
use commerceops_ai_platform.Base.{ℕ, String, Option}

-- `SUCCESS`, `FAILED`, `UNKNOWN`
pub data Status : Type 0 where
  success failed unknown : Status

-- The texts in the `reason` fields; `http n` is the f-string `http_{n}`.
pub data Reason : Type 0 where
  approved declined circuit_open bulkhead_full retries_exhausted : Reason
  http : ℕ → Reason

pub record GatewayOutcome : Type 0 where
  pub status : Status
  pub transaction_id : Option String
  pub reason : Reason

-- `GatewayUnavailable` and `GatewayDeclined`; the second keeps its status code.
pub data GatewayError : Type 0 where
  gateway_unavailable : GatewayError
  gateway_declined : ℕ → GatewayError

-- The JSON body of an answer: its status, and its transaction id where it has one.
pub record ChargeBody : Type 0 where
  pub status : Status
  pub transaction_id : Option String

-- What `httpx` makes of a request: `TimeoutException`, another `HTTPError`, or a response.
pub data Reply (B : Type 0) : Type 0 where
  timed_out transport_error : Reply B
  response : (status_code : ℕ) → B → Reply B

-- The f-string `order-{order_id}`.
pub data IdempotencyKey : Type 0 where
  order_key : ℕ → IdempotencyKey

pub record PaymentRequest : Type 0 where
  pub order_id : ℕ
  pub amount : ℕ

pub record PaymentResult : Type 0 where
  pub order_id : ℕ
  pub status : Status
  pub transaction_id : String
  pub amount : ℕ
  pub reason : Reason
