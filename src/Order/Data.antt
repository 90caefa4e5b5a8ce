-- ===== src/Order/Data.antt =====
-- app/order/models.py, the exceptions of app/clients/product_client.py, the events of
-- app/order/service.py, and the services that the Order service calls.
use commerceops_ai_platform.Base.{⊤, ℕ, String, List, Result, Table}
use commerceops_ai_platform.Product.{Reserved}
use commerceops_ai_platform.Product.Stock.{Item}
use commerceops_ai_platform.Payment.{Reason, PaymentRequest, PaymentResult}

pub data OrderStatus : Type 0 where
  pending paid payment_failed cancelled payment_pending : OrderStatus

-- A row of `orders` with its rows of `order_items`, without the timestamps.
pub record Order : Type 0 where
  pub customer_id : ℕ
  pub status : OrderStatus
  pub total_amount : ℕ
  pub items : List Reserved

-- The Order database; a customer is here only its name.
pub record Database : Type 0 where
  pub customers : Table String
  pub orders : Table Order
  pub next_id : ℕ

-- `ProductServiceError` by its status code, and `ProductServiceUnavailable`.
pub data ProductError : Type 0 where
  service_error : ℕ → ProductError
  unavailable : ProductError

-- An `HTTPException` by its status code; a `ProductServiceError` that nothing catches; and
-- pydantic's `ValidationError`, which nothing catches either.
pub data OrderError : Type 0 where
  http uncaught : ℕ → OrderError
  validation_error : OrderError

pub data Event : Type 0 where
  order_created : (order_id customer_id total_amount : ℕ) → Event
  order_paid : (order_id : ℕ) → (transaction_id : String) → Event
  order_payment_unconfirmed : (order_id : ℕ) → (reason : Reason) → Event
  order_payment_failed order_cancelled : (order_id : ℕ) → Event

-- `product_client.reserve`, `product_client.release`, `payment_client.charge` and `publish_event`,
-- over the state `S` of everything outside the Order service.
pub record Peers (S : Type 0) : Type 0 where
  pub reserve : List Item → S → Result ProductError (List Reserved) × S
  pub release : List Item → S → Result ProductError ⊤ × S
  pub charge : PaymentRequest → S → PaymentResult × S
  pub publish : Event → S → S
