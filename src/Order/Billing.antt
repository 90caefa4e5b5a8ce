-- ===== src/Order/Billing.antt =====
-- The order that `create_order` returns, and the payment behind its status.
use commerceops_ai_platform.Base.{
  ⊤, ℕ, ◌≡◌, refl, ap, subst, ◌∙◌, inl, inr, Bool-cases, some, Option-cases, List, ltb, Result, ok,
  err, lookup, lookup-insert_self, insert,
}
use commerceops_ai_platform.Product.{Reserved}
use commerceops_ai_platform.Product.Stock.{Item}
use commerceops_ai_platform.Payment.{Status, success, failed, unknown, PaymentResult}
use commerceops_ai_platform.Order.Data.{
  OrderStatus, pending, paid, payment_failed, payment_pending, Order, Database, ProductError,
  OrderError, service_error, unavailable, Peers,
}
use commerceops_ai_platform.Order.{
  total_of, release_items, settle_payment, place, create_order, after_release, after_reserve,
}

-- The status that a payment's status calls for.
abbrev pub status_of : Status → OrderStatus
status_of success = paid
status_of failed = payment_failed
status_of unknown = payment_pending

module _ {S : Type 0} (peers : Peers S) where
  -- The order is stored under the id, and a charge of this id and this very total answered with the
  -- status that the order has.
  pub record IsBilled (id : ℕ) (o : Order) (db : Database) : Type 0 where
    pub stored : lookup id db.orders ≡ some o
    pub before : S
    pub billed :
        status_of (peers.charge (record { order_id = id; amount = o.total_amount }) before).0.status
        ≡ o.status

  -- A request that raises returns no order.
  abbrev Returned : ℕ → Result OrderError Order × (Database × S) → Type 0
  Returned id (ok o, (db, s)) = IsBilled id o db
  Returned id (err e, (db, s)) = Unit

  module _ (id : ℕ) (o : Order) (db : Database) (m : S) where
    abbrev answer : PaymentResult × S
    answer = peers.charge (record { order_id = id; amount = o.total_amount }) m

    with_status :
        (st : OrderStatus) (table : Database)
        → status_of answer.0.status ≡ st
        → table.orders ≡ insert id (record o { status = st }) db.orders
        → IsBilled id (record o { status = st }) table
    with_status st table e row = record {
      stored = ap (lookup id) row ∙ lookup-insert_self id (record o { status = st }) db.orders;
      before = m;
      billed = e;
    }

    released :
        (out : Result ProductError ⊤ × S)
        → status_of answer.0.status ≡ payment_failed
        → Returned id (after_release peers id o db out)
    released (ok a, s') e = with_status payment_failed _ e refl
    released (err (service_error n), s') e = tt
    released (err unavailable, s') e = with_status payment_failed _ e refl

    settled :
        (st : Status) → answer.0.status ≡ st → Returned id (settle_payment peers id o db answer)
    unfolding settle_payment
    settled success e = rw (e, settle_payment) (with_status paid _ (ap status_of e) refl)
    settled unknown e = rw (e, settle_payment) (with_status payment_pending _ (ap status_of e) refl)
    settled failed e =
        rw (e, settle_payment) (released (release_items peers o answer.1) (ap status_of e))

  placed :
      (customer_id : ℕ) (taken : List Reserved) (db : Database) (s : S)
      → Returned db.next_id (place peers customer_id taken db s)
  unfolding place
  placed customer_id taken db s =
      let order : Order = record {
        customer_id = customer_id;
        status = pending;
        total_amount = total_of taken;
        items = taken;
      } in
      elim (Bool-cases (ltb 0 (total_of taken))) [
        | inl charged ↦ rw (charged, place) (settled db.next_id order _ _ _ refl)
        | inr free ↦ rw (free, place) tt
      ]

  reserved :
      (customer_id : ℕ) (db : Database) (out : Result ProductError (List Reserved) × S)
      → Returned db.next_id (after_reserve peers customer_id db out)
  reserved customer_id db (ok taken, s') = placed customer_id taken db s'
  reserved customer_id db (err (service_error n), s') = tt
  reserved customer_id db (err unavailable, s') = tt

  created :
      (customer_id : ℕ) (items : List Item) (db : Database) (s : S)
      → Returned db.next_id (create_order peers customer_id items (db, s))
  unfolding create_order
  created customer_id items db s = elim (Option-cases (lookup customer_id db.customers)) [
    | inl unknown_customer ↦ rw (unknown_customer, create_order) tt
    | inr (c, known) ↦ rw (known, create_order) (reserved customer_id db (peers.reserve items s))
  ]

  -- An order that `create_order` returns is stored under the next id, and a charge of this id and of
  -- the order's very total answered with the status that it has: PAID for SUCCESS, PAYMENT_FAILED for
  -- FAILED, PAYMENT_PENDING for UNKNOWN. No order comes back as PENDING.
  pub create_order-IsBilled :
      (customer_id : ℕ) (items : List Item) (db : Database) (s : S) (o : Order) (db' : Database)
      (s' : S)
      → create_order peers customer_id items (db, s) ≡ (ok o, (db', s'))
      → IsBilled db.next_id o db'
  create_order-IsBilled customer_id items db s o db' s' e =
      subst (Returned db.next_id) e (created customer_id items db s)
