-- ===== src/Order/Routes.antt =====
-- app/order/router.py with the requests of app/order/schemas.py: validation, and the status codes. An
-- answer goes out with 201 from `create_order` and with 200 from the others.

mod Tests
use commerceops_ai_platform.Base.{
  ⊤, ℕ, ◌≡◌, ◌≢◌, refl, subst, ap, inl, inr, Bool, true, false, ◌&&◌, Bool-cases, Option, none,
  some, Option-cases, List, [], ◌∷◌, ltb, if◌then◌else◌, Result, ok, err, Table, suc, insert,
  lookup, arith,
}
use commerceops_ai_platform.Product.{Reserved}
use commerceops_ai_platform.Product.Stock.{Item}
use commerceops_ai_platform.Payment.{
  Status, success, failed, unknown, PaymentRequest, PaymentResult,
}
use commerceops_ai_platform.Order.Data.{
  Order, Database, OrderError, ProductError, service_error, unavailable, http, uncaught,
  validation_error, pending, order_created, Peers,
}
use commerceops_ai_platform.Order.{
  total_of, release_items, after_release, after_reserve, settle_payment, place, create_order,
  get_order, cancel_order,
}
use commerceops_ai_platform.Order.Listing.{list_orders}

pub record OrderCreate : Type 0 where
  pub customer_id : ℕ
  pub items : List Item

-- `Field(gt=0)` of each quantity
abbrev pub has_quantities : List Item → Bool
has_quantities [] = true
has_quantities ((product_id, quantity) ∷ items) = ltb 0 quantity && has_quantities items

-- `Field(min_length=1)` of the items, with their quantities
abbrev pub is_order : List Item → Bool
is_order [] = false
is_order (item ∷ items) = has_quantities (item ∷ items)

-- FastAPI's status for an exception: its own, or 500 for one that it does not know.
abbrev pub code_of_error : OrderError → ℕ
code_of_error (http code) = code
code_of_error (uncaught code) = 500
code_of_error validation_error = 500

abbrev pub sent : {A W : Type 0} → Result OrderError A × W → Result ℕ A × W
sent (ok a, w) = (ok a, w)
sent (err e, w) = (err (code_of_error e), w)

module _ {S : Type 0} (peers : Peers S) where
  unfoldable pub post_order : OrderCreate → Database × S → Result ℕ Order × (Database × S)
  post_order payload w =
      if is_order payload.items
      then sent (create_order peers payload.customer_id payload.items w)
      else (err 422, w)

  unfoldable pub order_by_id_route : ℕ → Database × S → Result ℕ Order × (Database × S)
  order_by_id_route order_id (db, s) = sent (get_order peers order_id db, (db, s))

  unfoldable pub orders_route :
      Option ℕ → (skip limit : ℕ) → Database × S → Result ℕ (Table Order) × (Database × S)
  orders_route customer_id skip limit (db, s) =
      (ok (list_orders customer_id skip limit db), (db, s))

  unfoldable pub post_cancel : ℕ → Database × S → Result ℕ Order × (Database × S)
  post_cancel order_id w = sent (cancel_order peers order_id w)

  -- A failure by an `HTTPException` leaves the database as it was.
  abbrev Unstored : Database → Result OrderError Order × (Database × S) → Type 0
  Unstored db (ok o, w) = Unit {0}
  Unstored db (err (http code), (db', s)) = db' ≡ db
  Unstored db (err (uncaught code), w) = Unit {0}
  Unstored db (err validation_error, w) = Unit {0}

  after_release-Unstored :
      (db0 : Database) (id : ℕ) (o : Order) (db : Database) (out : Result ProductError ⊤ × S)
      → Unstored db0 (after_release peers id o db out)
  after_release-Unstored db0 id o db (ok a, s) = tt
  after_release-Unstored db0 id o db (err (service_error code), s) = tt
  after_release-Unstored db0 id o db (err unavailable, s) = tt

  settle_payment-Unstored :
      (db0 : Database) (id : ℕ) (o : Order) (db : Database) (st : Status) (p : PaymentResult)
      (s : S)
      → p.status ≡ st
      → Unstored db0 (settle_payment peers id o db (p, s))
  unfolding settle_payment
  settle_payment-Unstored db0 id o db success p s e = rw (e, settle_payment) tt
  settle_payment-Unstored db0 id o db unknown p s e = rw (e, settle_payment) tt
  settle_payment-Unstored db0 id o db failed p s e =
      rw (e, settle_payment) (after_release-Unstored db0 id o db (release_items peers o s))

  place-Unstored :
      (db0 : Database) (customer_id : ℕ) (taken : List Reserved) (db : Database) (s : S)
      → Unstored db0 (place peers customer_id taken db s)
  unfolding place
  place-Unstored db0 customer_id taken db s =
      let order : Order = record {
        customer_id = customer_id;
        status = pending;
        total_amount = total_of taken;
        items = taken;
      } in
      let stored : Database = record db {
        orders = insert db.next_id order db.orders;
        next_id = suc db.next_id;
      } in
      let request : PaymentRequest = record { order_id = db.next_id; amount = total_of taken } in
      let out =
        peers.charge request
          (peers.publish (order_created db.next_id customer_id (total_of taken)) s) in
      elim (Bool-cases (ltb 0 (total_of taken))) [
        | inl charged ↦
            rw (charged, place)
              (settle_payment-Unstored db0 db.next_id order stored out.0.status out.0 out.1 refl)
        | inr free ↦ rw (free, place) tt
      ]

  after_reserve-Unstored :
      (customer_id : ℕ) (db : Database) (out : Result ProductError (List Reserved) × S)
      → Unstored db (after_reserve peers customer_id db out)
  after_reserve-Unstored customer_id db (ok taken, s) = place-Unstored db customer_id taken db s
  after_reserve-Unstored customer_id db (err (service_error code), s) = refl
  after_reserve-Unstored customer_id db (err unavailable, s) = refl

  create_order-Unstored :
      (customer_id : ℕ) (items : List Item) (db : Database) (s : S)
      → Unstored db (create_order peers customer_id items (db, s))
  unfolding create_order
  create_order-Unstored customer_id items db s =
      elim (Option-cases (lookup customer_id db.customers)) [
        | inl missing ↦ rw (missing, create_order) refl
        | inr (c, known) ↦
            rw (known, create_order) (after_reserve-Unstored customer_id db (peers.reserve items s))
      ]

  -- What the answer to `POST /orders` says of the database.
  abbrev Answered : Database → Result ℕ Order × (Database × S) → Type 0
  Answered db (ok o, w) = Unit {0}
  Answered db (err code, (db', s)) = ¬ (code ≡ 500) → db' ≡ db

  -- `POST /orders` that is refused with another status than 500 leaves the orders, the customers and
  -- the next id as they were: an invalid body, an unknown customer, a product that is short, and a
  -- Product service that is unavailable store nothing.
  pub post_order_refused :
      (payload : OrderCreate) (db : Database) (s : S) (code : ℕ) (db' : Database) (s' : S)
      → post_order payload (db, s) ≡ (err code, (db', s'))
      → code ≢ 500
      → db' ≡ db
  unfolding post_order
  post_order_refused payload db s code db' s' e other = subst (Answered db) e told other
    where
      by_error :
          (out : Result OrderError Order × (Database × S))
          → Unstored db out
          → Answered db (sent out)
      by_error (ok o, w) h = tt
      by_error (err (http n), (d, x)) h = λ k. h
      by_error (err (uncaught n), (d, x)) h = λ k. absurd (k refl)
      by_error (err validation_error, (d, x)) h = λ k. absurd (k refl)

      told : Answered db (post_order payload (db, s))
      told = elim (Bool-cases (is_order payload.items)) [
        | inl valid ↦ rw valid (
            by_error (create_order peers payload.customer_id payload.items (db, s))
              (create_order-Unstored payload.customer_id payload.items db s))
        | inr invalid ↦ rw invalid (λ k. refl)
      ]
