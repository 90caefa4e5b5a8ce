-- ===== src/System.antt =====
-- The Order service with the module-level guards of app/clients/product_client.py and
-- app/clients/payment_client.py, wired to the other services. What carries the requests is a
-- parameter.
pub mod Http
pub mod Stock
pub mod Stocked
pub mod Requests
pub mod Charges
pub mod Twice
pub mod Grows
pub mod Payments
pub mod Paid
pub mod Apart
pub mod Race
mod Tests
use commerceops_ai_platform.Base.{⊤, ℕ, List, Result, ok, err}
use commerceops_ai_platform.Reliability.Bulkhead.{Bulkhead}
use commerceops_ai_platform.Reliability.Breaker.{Breaker}
use commerceops_ai_platform.Reliability.Protected.{Setup, Guarded}
use commerceops_ai_platform.Product.{Reserved}
use commerceops_ai_platform.Product.Stock.{Item}
use commerceops_ai_platform.Payment.{PaymentRequest, PaymentResult}
use commerceops_ai_platform.Order.{ProductError, Event, Peers}
use commerceops_ai_platform.Clients.ProductClient
use commerceops_ai_platform.Clients.ProductClient.{PostItems}
use commerceops_ai_platform.Clients.PaymentClient
use commerceops_ai_platform.Clients.PaymentClient.{Post}

-- The globals of the two client modules, beside the world outside the process.
pub record Process (X : Type 0) : Type 0 where
  pub product_bulkhead : Bulkhead
  pub product_breaker : Breaker
  pub payment_service_bulkhead : Bulkhead
  pub payment_service_breaker : Breaker
  pub world : X

-- The settings of the two clients, their HTTP requests, and `publish_event`.
pub record Wiring (X : Type 0) : Type 0 where
  pub product_setup : Setup X
  pub payment_setup : Setup X
  pub post_reserve : PostItems X (List Reserved)
  pub post_release : PostItems X ⊤
  pub post_payment : Post X
  pub publish_event : Event → X → X

module _ {X : Type 0} (w : Wiring X) where
  abbrev pub with_product : {R : Type 0} → Process X → R × Guarded X → R × Process X
  with_product p (r, (b, (c, x))) =
      (r, record p { product_bulkhead = b; product_breaker = c; world = x })

  abbrev pub with_payment : {R : Type 0} → Process X → R × Guarded X → R × Process X
  with_payment p (r, (b, (c, x))) =
      (r, record p { payment_service_bulkhead = b; payment_service_breaker = c; world = x })

  abbrev pub reserve : List Item → Process X → Result ProductError (List Reserved) × Process X
  reserve items p = with_product p (
      ProductClient.reserve w.product_setup w.post_reserve items
        (p.product_bulkhead, (p.product_breaker, p.world)))

  abbrev pub release : List Item → Process X → Result ProductError ⊤ × Process X
  release items p = with_product p (
      ProductClient.release w.product_setup w.post_release items
        (p.product_bulkhead, (p.product_breaker, p.world)))

  abbrev pub charge : PaymentRequest → Process X → PaymentResult × Process X
  charge request p = with_payment p (
      PaymentClient.charge w.payment_setup w.post_payment request
        (p.payment_service_bulkhead, (p.payment_service_breaker, p.world)))

  abbrev pub peers : Peers (Process X)
  peers = record {
    reserve = reserve;
    release = release;
    charge = charge;
    publish = λ event p. record p { world = w.publish_event event p.world };
  }
