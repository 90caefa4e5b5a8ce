-- ===== src/Order/Paid.antt =====
-- The orders that are PAID in app/order/service.py, and how often the gateway charged them.
use commerceops_ai_platform.Base.{
  ⊤, ℕ, suc, ◌≤◌, ◌≡◌, refl, inl, inr, Bool, true, false, Bool-cases, Option, none, some,
  Option-cases, List, [], ◌∷◌, ltb, if◌then◌else◌, ◌==◌, Result, ok, err, lookup, insert,
  lookup-insert, arith,
}
use commerceops_ai_platform.Product.{Reserved}
use commerceops_ai_platform.Product.Stock.{Item}
use commerceops_ai_platform.Payment.{
  Status, success, failed, unknown, PaymentRequest, PaymentResult,
}
use commerceops_ai_platform.Payment.Gateway.{is_success}
use commerceops_ai_platform.Order.Data.{
  OrderStatus, pending, paid, Order, Database, ProductError, service_error, unavailable, Event,
  order_created, order_paid, order_payment_failed, order_payment_unconfirmed, order_cancelled,
  Peers,
}
use commerceops_ai_platform.Order.{
  items_of, total_of, release_items, settle_payment, place, create_order, cancel_order,
  cannot_cancel, after_cancel, after_release, after_reserve,
}

abbrev pub is_paid : OrderStatus → Bool
is_paid paid = true
is_paid _ = false

-- How often the gateway must have charged an order.
abbrev pub owed : Option Order → ℕ
owed none = 0
owed (some order) = if is_paid order.status then 1 else 0

module _ {S : Type 0} (good : S → Type 0) (charges : ℕ → S → ℕ) where
  -- What a call of another service keeps: the world stays good and no count of charges falls.
  pub record Onward (s s' : S) : Type 0 where
    pub still_good : good s'
    pub grown : (n : ℕ) → charges n s ≤ charges n s'

  -- What the Order service relies on of the services that it calls: from a good world each keeps
  -- this, and an order whose charge reports SUCCESS was charged.
  pub record IsMetered (peers : Peers S) : Type 0 where
    pub reserve-Onward : (items : List Item) (s : S) → good s → Onward s (peers.reserve items s).1
    pub release-Onward : (items : List Item) (s : S) → good s → Onward s (peers.release items s).1
    pub charge-Onward :
        (request : PaymentRequest) (s : S) → good s → Onward s (peers.charge request s).1
    pub publish-Onward : (event : Event) (s : S) → good s → Onward s (peers.publish event s)
    pub charge-due :
        (request : PaymentRequest) (s : S)
        → good s
        → (if is_success (peers.charge request s).0.status then 1 else 0)
          ≤ charges request.order_id (peers.charge request s).1

  -- Each PAID order was charged.
  pub record IsPaidFor (w : Database × S) : Type 0 where
    pub world : good w.1
    pub paid_for : (n : ℕ) → owed (lookup n w.0.orders) ≤ charges n w.1

  Onward-IsPaidFor :
      (db : Database) (s s' : S) → IsPaidFor (db, s) → Onward s s' → IsPaidFor (db, s')
  Onward-IsPaidFor db s s' v o = record {
    world = o.still_good;
    paid_for = λ n. omega (arith, v.paid_for n, o.grown n);
  }

  module _ (peers : Peers S) (laws : IsMetered peers) where
    publish-IsPaidFor :
        (event : Event) (db : Database) (s : S)
        → IsPaidFor (db, s)
        → IsPaidFor (db, peers.publish event s)
    publish-IsPaidFor event db s v =
        Onward-IsPaidFor db s (peers.publish event s) v (laws.publish-Onward event s v.world)

    insert-IsPaidFor :
        (id next_id : ℕ) (o : Order) (db : Database) (s : S)
        → IsPaidFor (db, s)
        → owed (some o) ≤ charges id s
        → IsPaidFor (record db { orders = insert id o db.orders; next_id = next_id }, s)
    insert-IsPaidFor id next_id o db s v fits = record {
      world = v.world;
      paid_for = λ n. elim (Bool-cases (n == id)) [
        | inl here ↦
            ground (arith, lookup-insert n id o db.orders, fits, same n id here, v.paid_for n)
        | inr there ↦ rw (lookup-insert n id o db.orders, there) (v.paid_for n)
      ];
    }
      where
        same : (n id : ℕ) → (n == id) ≡ true → n ≡ id
        same n id e = ground (arith, e)

    release_items-IsPaidFor :
        (o : Order) (db : Database) (s : S)
        → IsPaidFor (db, s)
        → IsPaidFor (db, (release_items peers o s).1)
    unfolding release_items
    release_items-IsPaidFor o db s v = go (items_of o.items)
      where
        after : Result ProductError ⊤ × S → Type 0
        after out = IsPaidFor (db, out.1)

        go :
            (is : List Item)
            → after (elim is [ [] ↦ (ok tt, s) | j ∷ js ↦ peers.release (j ∷ js) s ])
        go [] = v
        go (j ∷ js) =
            Onward-IsPaidFor db s (peers.release (j ∷ js) s).1 v
              (laws.release-Onward (j ∷ js) s v.world)

    after_release-IsPaidFor :
        (id : ℕ) (o : Order) (db : Database) (out : Result ProductError ⊤ × S)
        → IsPaidFor (db, out.1)
        → IsPaidFor (after_release peers id o db out).1
    after_release-IsPaidFor id o db (err (service_error n), s) v = v
    after_release-IsPaidFor id o db (err unavailable, s) v =
        insert-IsPaidFor id db.next_id _ db _ (publish-IsPaidFor (order_payment_failed id) db s v)
          (omega arith)
    after_release-IsPaidFor id o db (ok a, s) v =
        insert-IsPaidFor id db.next_id _ db _ (publish-IsPaidFor (order_payment_failed id) db s v)
          (omega arith)

    settle_payment-IsPaidFor :
        (id : ℕ) (o : Order) (db : Database) (st : Status) (p : PaymentResult) (s : S)
        → IsPaidFor (db, s)
        → p.status ≡ st
        → (if is_success p.status then 1 else 0) ≤ charges id s
        → IsPaidFor (settle_payment peers id o db (p, s)).1
    unfolding settle_payment
    settle_payment-IsPaidFor id o db success p s v e fits =
        rw (e, settle_payment)
          (insert-IsPaidFor id db.next_id (record o { status = paid }) db _
            (publish-IsPaidFor (order_paid id p.transaction_id) db s v)
            (ground (
              arith,
              fits,
              (laws.publish-Onward (order_paid id p.transaction_id) s v.world).grown id,
            )))
    settle_payment-IsPaidFor id o db unknown p s v e fits =
        rw (e, settle_payment)
          (insert-IsPaidFor id db.next_id _ db _
            (publish-IsPaidFor (order_payment_unconfirmed id p.reason) db s v) (omega arith))
    settle_payment-IsPaidFor id o db failed p s v e fits =
        rw (e, settle_payment)
          (after_release-IsPaidFor id o db (release_items peers o s)
            (release_items-IsPaidFor o db s v))

    place-IsPaidFor :
        (customer_id : ℕ) (taken : List Reserved) (db : Database) (s : S)
        → IsPaidFor (db, s)
        → IsPaidFor (place peers customer_id taken db s).1
    unfolding place
    place-IsPaidFor customer_id taken db s v =
        let order : Order = record {
          customer_id = customer_id;
          status = pending;
          total_amount = total_of taken;
          items = taken;
        } in
        let event = order_created db.next_id customer_id (total_of taken) in
        let m = peers.publish event s in
        let request : PaymentRequest = record { order_id = db.next_id; amount = total_of taken } in
        let stored : Database = record db {
          orders = insert db.next_id order db.orders;
          next_id = suc db.next_id;
        } in
        let w : IsPaidFor (stored, m) =
          publish-IsPaidFor event stored s
            (insert-IsPaidFor db.next_id (suc db.next_id) order db s v (omega arith)) in
        elim (Bool-cases (ltb 0 (total_of taken))) [
          | inl charged ↦
              rw (charged, place)
                (settle_payment-IsPaidFor db.next_id order stored (peers.charge request m).0.status
                  (peers.charge request m).0 (peers.charge request m).1
                  (Onward-IsPaidFor stored m (peers.charge request m).1 w
                    (laws.charge-Onward request m w.world))
                  refl (laws.charge-due request m w.world))
          | inr free ↦ rw (free, place) w
        ]

    after_reserve-IsPaidFor :
        (customer_id : ℕ) (db : Database) (out : Result ProductError (List Reserved) × S)
        → IsPaidFor (db, out.1)
        → IsPaidFor (after_reserve peers customer_id db out).1
    after_reserve-IsPaidFor customer_id db (ok taken, s) v =
        place-IsPaidFor customer_id taken db s v
    after_reserve-IsPaidFor customer_id db (err (service_error n), s) v = v
    after_reserve-IsPaidFor customer_id db (err unavailable, s) v = v

    pub create_order-IsPaidFor :
        (customer_id : ℕ) (items : List Item) (db : Database) (s : S)
        → IsPaidFor (db, s)
        → IsPaidFor (create_order peers customer_id items (db, s)).1
    unfolding create_order
    create_order-IsPaidFor customer_id items db s v =
        elim (Option-cases (lookup customer_id db.customers)) [
          | inl unknown_customer ↦ rw (unknown_customer, create_order) v
          | inr (c, known) ↦
              rw (known, create_order)
                (after_reserve-IsPaidFor customer_id db (peers.reserve items s) (
                  Onward-IsPaidFor db s (peers.reserve items s).1 v
                    (laws.reserve-Onward items s v.world)))
        ]

    after_cancel-IsPaidFor :
        (id : ℕ) (o : Order) (db : Database) (out : Result ProductError ⊤ × S)
        → IsPaidFor (db, out.1)
        → IsPaidFor (after_cancel peers id o db out).1
    after_cancel-IsPaidFor id o db (err (service_error n), s) v = v
    after_cancel-IsPaidFor id o db (err unavailable, s) v = v
    after_cancel-IsPaidFor id o db (ok a, s) v =
        insert-IsPaidFor id db.next_id _ db _ (publish-IsPaidFor (order_cancelled id) db s v)
          (omega arith)

    pub cancel_order-IsPaidFor :
        (id : ℕ) (db : Database) (s : S)
        → IsPaidFor (db, s)
        → IsPaidFor (cancel_order peers id (db, s)).1
    unfolding cancel_order
    cancel_order-IsPaidFor id db s v = elim (Option-cases (lookup id db.orders)) [
      | inl missing ↦ rw (missing, cancel_order) v
      | inr (o, found) ↦ elim (Bool-cases (cannot_cancel peers o.status)) [
        | inl closed ↦ rw (found, cancel_order) (rw closed v)
        | inr open_ ↦
            rw (found, cancel_order)
              (rw open_ (
                after_cancel-IsPaidFor id o db (release_items peers o s)
                  (release_items-IsPaidFor o db s v)))
      ]
    ]
