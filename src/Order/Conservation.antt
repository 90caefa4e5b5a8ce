-- ===== src/Order/Conservation.antt =====
-- Stock is conserved: what is left and what the orders keep never exceed what there was.
use commerceops_ai_platform.Base.{
  ⊤, ℕ, suc, ◌+◌, ◌≤◌, ◌<◌, ◌≡◌, refl, ap, inl, inr, Bool-cases, true, some, Option-cases, List, [],
  ◌∷◌, ltb, if◌then◌else◌, Result, ok, err, lookup, insert, lookup-insert_self, arith,
}
use commerceops_ai_platform.Product.{Reserved}
use commerceops_ai_platform.Product.Stock.{Item}
use commerceops_ai_platform.Product.Stock.Sorted.{ordered}
use commerceops_ai_platform.Payment.{
  Status, success, failed, unknown, PaymentRequest, PaymentResult,
}
use commerceops_ai_platform.Order.Data.{
  OrderStatus, pending, paid, payment_failed, cancelled, payment_pending, Order, Database,
  ProductError, service_error, unavailable, http, order_created, order_paid, order_payment_failed,
  order_payment_unconfirmed, order_cancelled, Peers,
}
use commerceops_ai_platform.Order.{
  items_of, total_of, release_items, set_status, settle_payment, place, create_order, cancel_order,
  cannot_cancel, after_cancel, after_release, after_reserve,
}
use commerceops_ai_platform.Order.Holdings.{
  is_holding, holding, held, kept, held-insert, IsFresh, lookup_of_IsFresh, insert-IsFresh,
  suc-IsFresh, lt_of_lookup,
}
use commerceops_ai_platform.Order.Stocked.{Takes, Returns, IsStocked}

module _ {S : Type 0} (stock : S → ℕ → ℕ) (peers : Peers S) (laws : IsStocked stock peers) where
  -- Stored ids are below the next one, and the stock that is left with what the orders keep stays
  -- within the bound of each product.
  pub record IsCovered (bound : ℕ → ℕ) (w : Database × S) : Type 0 where
    pub fresh : IsFresh w.0.next_id w.0.orders
    pub covered : (k : ℕ) → stock w.1 k + held w.0.orders k ≤ bound k

  module _ (bound : ℕ → ℕ) where
    -- An order's row gets another status while stock moves.
    set_status-IsCovered :
        (id : ℕ) (o : Order) (st : OrderStatus) (db : Database) (s s' : S)
        → IsCovered bound (db, s)
        → lookup id db.orders ≡ some o
        → id < db.next_id
        → ((k : ℕ) → stock s' k + holding (record o { status = st }) k ≤ stock s k + holding o k)
        → IsCovered bound (set_status peers id o st db, s')
    set_status-IsCovered id o st db s s' v found lt moves = record {
      fresh = insert-IsFresh db.next_id id (record o { status = st }) db.orders lt v.fresh;
      covered = λ k.
          let row = ap (λ x. kept x k) found in
          omega (
            arith,
            v.covered k,
            moves k,
            held-insert id (record o { status = st }) db.orders k,
            row,
          );
    }

    -- Stock goes down at most, and no row changes.
    less-IsCovered :
        (db : Database) (s s' : S)
        → IsCovered bound (db, s)
        → ((k : ℕ) → stock s' k ≤ stock s k)
        → IsCovered bound (db, s')
    less-IsCovered db s s' v less = record {
      fresh = v.fresh;
      covered = λ k. omega (arith, v.covered k, less k);
    }

    release_items-Returns :
        (o : Order) (s : S) (k : ℕ) → Returns stock k (items_of o.items) s (release_items peers o s)
    unfolding release_items
    release_items-Returns o s k = go (items_of o.items)
      where
        go :
            (is : List Item)
            → Returns stock k is s (elim is [ [] ↦ (ok tt, s) | j ∷ js ↦ peers.release (j ∷ js) s ])
        go [] = omega arith
        go (j ∷ js) = laws.release-Returns (j ∷ js) s k

    module _ (id : ℕ) (o : Order) (db : Database) (found : lookup id db.orders ≡ some o)
        (lt : id < db.next_id) (kept_all : is_holding o.status ≡ true) where
      after_release-IsCovered :
          (s : S) (out : Result ProductError ⊤ × S)
          → IsCovered bound (db, s)
          → ((k : ℕ) → Returns stock k (items_of o.items) s out)
          → IsCovered bound (after_release peers id o db out).1
      after_release-IsCovered s (err (service_error n), s') v r = less-IsCovered db s s' v r
      after_release-IsCovered s (err unavailable, s') v r =
          set_status-IsCovered id o payment_failed db s _ v found lt
            (λ k. ground (arith, r k, laws.publish-le (order_payment_failed id) s' k))
      after_release-IsCovered s (ok a, s') v r =
          set_status-IsCovered id o payment_failed db s _ v found lt
            (λ k. ground (arith, r k, laws.publish-le (order_payment_failed id) s' k, kept_all))

      settle_payment-IsCovered :
          (st : Status) (p : PaymentResult) (s : S)
          → IsCovered bound (db, s)
          → p.status ≡ st
          → IsCovered bound (settle_payment peers id o db (p, s)).1
      unfolding settle_payment
      settle_payment-IsCovered success p s v e =
          rw (e, settle_payment)
            (set_status-IsCovered id o paid db s _ v found lt
              (λ k. ground (arith, kept_all, laws.publish-le (order_paid id p.transaction_id) s k)))
      settle_payment-IsCovered unknown p s v e =
          rw (e, settle_payment)
            (set_status-IsCovered id o payment_pending db s _ v found lt (λ k.
              ground
                (arith, kept_all, laws.publish-le (order_payment_unconfirmed id p.reason) s k)))
      settle_payment-IsCovered failed p s v e =
          rw (e, settle_payment)
            (after_release-IsCovered s (release_items peers o s) v (release_items-Returns o s))

      after_cancel-IsCovered :
          (s : S) (out : Result ProductError ⊤ × S)
          → IsCovered bound (db, s)
          → ((k : ℕ) → Returns stock k (items_of o.items) s out)
          → IsCovered bound (after_cancel peers id o db out).1
      after_cancel-IsCovered s (err (service_error n), s') v r = less-IsCovered db s s' v r
      after_cancel-IsCovered s (err unavailable, s') v r = less-IsCovered db s s' v r
      after_cancel-IsCovered s (ok a, s') v r =
          set_status-IsCovered id o cancelled db s _ v found lt
            (λ k. ground (arith, r k, laws.publish-le (order_cancelled id) s' k, kept_all))

    module _ (customer_id : ℕ) (db : Database) where
      abbrev order_of : List Reserved → Order
      order_of taken = record {
        customer_id = customer_id;
        status = pending;
        total_amount = total_of taken;
        items = taken;
      }

      abbrev stored : List Reserved → Database
      stored taken = record db {
        orders = insert db.next_id (order_of taken) db.orders;
        next_id = suc db.next_id;
      }

      -- The new row keeps what was taken.
      stored-IsCovered :
          (taken : List Reserved) (s s' : S)
          → IsCovered bound (db, s)
          → ((k : ℕ) → stock s' k + ordered (items_of taken) k ≤ stock s k)
          → IsCovered bound (stored taken, s')
      stored-IsCovered taken s s' v takes = record {
        fresh =
            insert-IsFresh (suc db.next_id) db.next_id (order_of taken) db.orders (omega arith)
              (suc-IsFresh db.next_id db.orders v.fresh);
        covered = λ k.
            let none_yet = ap (λ x. kept x k) (lookup_of_IsFresh db.next_id db.orders v.fresh) in
            omega (
              arith,
              v.covered k,
              takes k,
              held-insert db.next_id (order_of taken) db.orders k,
              none_yet,
            );
      }

      place-IsCovered :
          (taken : List Reserved) (s s' : S)
          → IsCovered bound (db, s)
          → ((k : ℕ) → stock s' k + ordered (items_of taken) k ≤ stock s k)
          → IsCovered bound (place peers customer_id taken db s').1
      unfolding place
      place-IsCovered taken s s' v takes =
          let m = peers.publish (order_created db.next_id customer_id (total_of taken)) s' in
          let request : PaymentRequest = record {
            order_id = db.next_id;
            amount = total_of taken;
          } in
          let out = peers.charge request m in
          let w =
            less-IsCovered (stored taken) s' m (stored-IsCovered taken s s' v takes)
              (laws.publish-le (order_created db.next_id customer_id (total_of taken)) s') in
          elim (Bool-cases (ltb 0 (total_of taken))) [
            | inl charged ↦
                rw (charged, place)
                  (settle_payment-IsCovered db.next_id (order_of taken) (stored taken)
                    (lookup-insert_self db.next_id (order_of taken) db.orders) (omega arith) refl
                    out.0.status out.0 out.1
                    (less-IsCovered (stored taken) m out.1 w (laws.charge-le request m)) refl)
            | inr free ↦ rw (free, place) w
          ]

      after_reserve-IsCovered :
          (s : S) (out : Result ProductError (List Reserved) × S)
          → IsCovered bound (db, s)
          → ((k : ℕ) → Takes stock k s out)
          → IsCovered bound (after_reserve peers customer_id db out).1
      after_reserve-IsCovered s (ok taken, s') v t = place-IsCovered taken s s' v t
      after_reserve-IsCovered s (err (service_error n), s') v t = less-IsCovered db s s' v t
      after_reserve-IsCovered s (err unavailable, s') v t = less-IsCovered db s s' v t

    pub create_order-IsCovered :
        (customer_id : ℕ) (items : List Item) (db : Database) (s : S)
        → IsCovered bound (db, s)
        → IsCovered bound (create_order peers customer_id items (db, s)).1
    unfolding create_order
    create_order-IsCovered customer_id items db s v =
        elim (Option-cases (lookup customer_id db.customers)) [
          | inl unknown_customer ↦ rw (unknown_customer, create_order) v
          | inr (c, known) ↦
              rw (known, create_order)
                (after_reserve-IsCovered customer_id db s (peers.reserve items s) v
                  (laws.reserve-Takes items s))
        ]

    -- Only an order that keeps its stock is released.
    cancelled-IsCovered :
        (id : ℕ) (o : Order) (db : Database) (s : S) (st : OrderStatus)
        → IsCovered bound (db, s)
        → lookup id db.orders ≡ some o
        → id < db.next_id
        → o.status ≡ st
        → IsCovered bound
            (if cannot_cancel peers st
              then (err (http 409), (db, s))
              else after_cancel peers id o db (release_items peers o s)).1
    cancelled-IsCovered id o db s paid v found lt e =
        after_cancel-IsCovered id o db found lt (ap is_holding e) s (release_items peers o s) v
          (release_items-Returns o s)
    cancelled-IsCovered id o db s pending v found lt e =
        after_cancel-IsCovered id o db found lt (ap is_holding e) s (release_items peers o s) v
          (release_items-Returns o s)
    cancelled-IsCovered id o db s cancelled v found lt e = v
    cancelled-IsCovered id o db s payment_failed v found lt e = v
    cancelled-IsCovered id o db s payment_pending v found lt e = v

    pub cancel_order-IsCovered :
        (id : ℕ) (db : Database) (s : S)
        → IsCovered bound (db, s)
        → IsCovered bound (cancel_order peers id (db, s)).1
    unfolding cancel_order
    cancel_order-IsCovered id db s v = elim (Option-cases (lookup id db.orders)) [
      | inl missing ↦ rw (missing, cancel_order) v
      | inr (o, found) ↦
          rw (found, cancel_order)
            (cancelled-IsCovered id o db s o.status v found
              (lt_of_lookup db.next_id id o db.orders v.fresh found) refl)
    ]
