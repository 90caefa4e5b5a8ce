-- ===== src/Order.antt =====
-- app/order/service.py, app/order/models.py and app/order/schemas.py. The Product and Payment
-- services and the queue are reached through `Peers`; amounts are in cents, where the rounding of
-- `_line_total` to two decimals changes nothing. The database does not fail.
mod Data
pub mod Lifecycle
pub mod Creation
pub mod Billing
pub mod Listing
pub mod Holdings
pub mod Stocked
pub mod Conservation
pub mod Paid
pub mod Routes
mod Tests
pub use Data.*
use commerceops_ai_platform.Base.{
  ⊤, ℕ, suc, ◌+◌, ◌*◌, Bool, true, false, Option, none, some, String, List, [], ◌∷◌, ltb,
  if◌then◌else◌, Result, ok, err, Exec, Table, lookup, insert,
}
use commerceops_ai_platform.Product.{Reserved}
use commerceops_ai_platform.Product.Stock.{Item}
use commerceops_ai_platform.Payment.{
  Status, success, failed, unknown, PaymentRequest, PaymentResult,
}

-- `_line_total`
unfoldable pub line_total : ℕ → ℕ → ℕ
line_total unit_price quantity = unit_price * quantity

-- The loop that adds up `total`.
unfoldable pub total_of : List Reserved → ℕ
unfolding line_total
total_of [] = 0
total_of (l ∷ ls) = line_total l.unit_price l.quantity + total_of ls

-- The `{"product_id": …, "quantity": …}` of each line.
abbrev pub items_of : List Reserved → List Item
items_of [] = []
items_of (l ∷ ls) = (l.product_id, l.quantity) ∷ items_of ls

module _ {S : Type 0} (peers : Peers S) where
  open peers use {reserve, release, charge, publish}

  -- `_release_items`
  pub release_items : Order → S → Result ProductError ⊤ × S
  release_items order s = elim (items_of order.items) [
    | [] ↦ (ok tt, s)
    | i ∷ is ↦ release (i ∷ is) s
  ]

  -- `order.status = …` with its commit.
  abbrev pub set_status : ℕ → Order → OrderStatus → Database → Database
  set_status id order status db = record db {
    orders = insert id (record order { status = status }) db.orders;
  }

  -- The branch of a declined payment: stock is released, and an unavailable service is ignored.
  abbrev pub after_release :
      ℕ → Order → Database → Result ProductError ⊤ × S → Result OrderError Order × (Database × S)
  after_release id order db (err (service_error code), s) = (err (uncaught code), (db, s))
  after_release id order db (err unavailable, s) = (
    ok (record order { status = payment_failed }),
    (set_status id order payment_failed db, publish (order_payment_failed id) s),
  )
  after_release id order db (ok released, s) = (
    ok (record order { status = payment_failed }),
    (set_status id order payment_failed db, publish (order_payment_failed id) s),
  )

  -- What follows the payment, by its status.
  pub settle_payment :
      ℕ → Order → Database → PaymentResult × S → Result OrderError Order × (Database × S)
  unfolding release_items
  settle_payment id order db (payment, s) = elim payment.status [
    | success ↦ (
      ok (record order { status = paid }),
      (set_status id order paid db, publish (order_paid id payment.transaction_id) s),
    )
    | unknown ↦ (
      ok (record order { status = payment_pending }),
      (
        set_status id order payment_pending db,
        publish (order_payment_unconfirmed id payment.reason) s,
      ),
    )
    | failed ↦ after_release id order db (release_items order s)
  ]

  -- From the first commit on: the order exists as PENDING. `PaymentRequest` wants a positive amount
  -- and raises before any charge otherwise.
  pub place : ℕ → List Reserved → Database → S → Result OrderError Order × (Database × S)
  unfolding total_of settle_payment
  place customer_id reserved db s =
      let order : Order = record {
        customer_id = customer_id;
        status = pending;
        total_amount = total_of reserved;
        items = reserved;
      } in
      let id = db.next_id in
      let db' = record db { orders = insert id order db.orders; next_id = suc id } in
      let s' = publish (order_created id customer_id order.total_amount) s in
      let request : PaymentRequest = record { order_id = id; amount = order.total_amount } in
      if ltb 0 order.total_amount
      then settle_payment id order db' (charge request s')
      else (err validation_error, (db', s'))

  abbrev pub after_reserve :
      ℕ
      → Database
      → Result ProductError (List Reserved) × S
      → Result OrderError Order × (Database × S)
  after_reserve customer_id db (ok reserved, s) = place customer_id reserved db s
  after_reserve customer_id db (err (service_error code), s) = (err (http code), (db, s))
  after_reserve customer_id db (err unavailable, s) = (err (http 503), (db, s))

  unfoldable pub create_order :
      ℕ → List Item → Database × S → Result OrderError Order × (Database × S)
  unfolding place
  create_order customer_id items (db, s) = elim (lookup customer_id db.customers) [
    | none ↦ (err (http 404), (db, s))
    | some customer ↦ after_reserve customer_id db (reserve items s)
  ]

  unfoldable pub get_order : ℕ → Database → Result OrderError Order
  get_order id db = elim (lookup id db.orders) [ none ↦ err (http 404) | some order ↦ ok order ]

  -- The test of `cancel_order`.
  abbrev pub cannot_cancel : OrderStatus → Bool
  cannot_cancel cancelled = true
  cannot_cancel payment_failed = true
  cannot_cancel payment_pending = true
  cannot_cancel pending = false
  cannot_cancel paid = false

  abbrev pub after_cancel :
      ℕ → Order → Database → Result ProductError ⊤ × S → Result OrderError Order × (Database × S)
  after_cancel id order db (ok released, s) = (
    ok (record order { status = cancelled }),
    (set_status id order cancelled db, publish (order_cancelled id) s),
  )
  after_cancel id order db (err (service_error code), s) = (err (http code), (db, s))
  after_cancel id order db (err unavailable, s) = (err (http 503), (db, s))

  unfoldable pub cancel_order : ℕ → Database × S → Result OrderError Order × (Database × S)
  unfolding release_items
  cancel_order id (db, s) = elim (lookup id db.orders) [
    | none ↦ (err (http 404), (db, s))
    | some order ↦
        if cannot_cancel order.status
        then (err (http 409), (db, s))
        else after_cancel id order db (release_items order s)
  ]
