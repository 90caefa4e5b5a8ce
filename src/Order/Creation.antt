-- ===== src/Order/Creation.antt =====
-- What the creation of an order does to the orders that are stored already.
use commerceops_ai_platform.Base.{
  ⊤, ℕ, suc, ◌≡◌, ◌≢◌, refl, inl, inr, Bool-cases, Option-cases, List, ltb, Result, ok, err, lookup,
  insert, lookup-insert, arith,
}
use commerceops_ai_platform.Product.{Reserved}
use commerceops_ai_platform.Product.Stock.{Item}
use commerceops_ai_platform.Payment.{Status, success, failed, unknown, PaymentResult}
use commerceops_ai_platform.Order.Data.{
  pending, Order, Database, ProductError, service_error, unavailable, order_created, Peers,
}
use commerceops_ai_platform.Order.{
  total_of, release_items, settle_payment, place, create_order, after_release, after_reserve,
}

module _ {S : Type 0} (peers : Peers S) where
  -- A request to create an order changes the row of no other id than the new one, however the
  -- peers answer.
  pub create_order_keeps :
      (customer_id : ℕ) (items : List Item) (db : Database) (s : S) (j : ℕ)
      → j ≢ db.next_id
      → lookup j (create_order peers customer_id items (db, s)).1.0.orders ≡ lookup j db.orders
  unfolding create_order
  create_order_keeps customer_id items db s j other =
      elim (Option-cases (lookup customer_id db.customers)) [
        | inl unknown_customer ↦ rw (unknown_customer, create_order) refl
        | inr (c, known) ↦ rw (known, create_order) (reserved_keeps (peers.reserve items s))
      ]
    where
      placed : Order → Database
      placed o = record db { orders = insert db.next_id o db.orders; next_id = suc db.next_id }

      same : (o : Order) → lookup j (insert db.next_id o db.orders) ≡ lookup j db.orders
      same o = ground (arith, lookup-insert j db.next_id o db.orders)

      twice :
          (o o' : Order)
          → lookup j (insert db.next_id o' (insert db.next_id o db.orders)) ≡ lookup j db.orders
      twice o o' =
          ground (arith, lookup-insert j db.next_id o' (insert db.next_id o db.orders), same o)

      released_keeps :
          (o : Order) (out : Result ProductError ⊤ × S)
          → lookup j (after_release peers db.next_id o (placed o) out).1.0.orders
            ≡ lookup j db.orders
      released_keeps o (ok a, s') = twice o _
      released_keeps o (err (service_error n), s') = same o
      released_keeps o (err unavailable, s') = twice o _

      settled_keeps :
          (o : Order) (st : Status) (p : PaymentResult) (s' : S)
          → p.status ≡ st
          → lookup j (settle_payment peers db.next_id o (placed o) (p, s')).1.0.orders
            ≡ lookup j db.orders
      settled_keeps o success p s' e = unfold settle_payment in rw (e, settle_payment) (twice o _)
      settled_keeps o unknown p s' e = unfold settle_payment in rw (e, settle_payment) (twice o _)
      settled_keeps o failed p s' e =
          unfold settle_payment in
          rw (e, settle_payment) (released_keeps o (release_items peers o s'))

      fresh : List Reserved → Order
      fresh taken = record {
        customer_id = customer_id;
        status = pending;
        total_amount = total_of taken;
        items = taken;
      }

      placed_keeps :
          (taken : List Reserved) (s' : S)
          → lookup j (place peers customer_id taken db s').1.0.orders ≡ lookup j db.orders
      placed_keeps taken s' =
          let s'' = peers.publish (order_created db.next_id customer_id (total_of taken)) s' in
          let out = peers.charge (record { order_id = db.next_id; amount = total_of taken }) s'' in
          elim (Bool-cases (ltb 0 (total_of taken))) [
            | inl charged ↦
                unfold place in
                rw (charged, place) (settled_keeps (fresh taken) out.0.status out.0 out.1 refl)
            | inr free ↦ unfold place in rw (free, place) (same (fresh taken))
          ]

      reserved_keeps :
          (out : Result ProductError (List Reserved) × S)
          → lookup j (after_reserve peers customer_id db out).1.0.orders ≡ lookup j db.orders
      reserved_keeps (err (service_error n), s') = refl
      reserved_keeps (err unavailable, s') = refl
      reserved_keeps (ok taken, s') = placed_keeps taken s'
