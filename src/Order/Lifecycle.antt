-- ===== src/Order/Lifecycle.antt =====
-- The statuses of an order, and what a cancellation does.
use commerceops_ai_platform.Base.{
  ⊤, ℕ, ◌≡◌, ◌≢◌, refl, ap, ◌∙◌, ◌⊎◌, inl, inr, true, Bool-cases, Option, some, Option-cases, ◌==◌,
  if◌then◌else◌, Result, ok, err, lookup, insert, lookup-insert, arith, subst,
}
use commerceops_ai_platform.Order.Data.{
  OrderStatus, pending, paid, payment_failed, cancelled, payment_pending, Order, Database,
  ProductError, service_error, unavailable, http, Peers,
}
use commerceops_ai_platform.Order.{release_items, cancel_order, cannot_cancel, after_cancel}

-- The steps of an order's status.
pub data Transition : OrderStatus → OrderStatus → Type 0 where
  cancels_paid : Transition paid cancelled
  cancels_pending : Transition pending cancelled

-- What may become of a stored order: its status stays or makes a step, and nothing else changes.
pub record Follows (o o' : Order) : Type 0 where
  pub customer : o'.customer_id ≡ o.customer_id
  pub total : o'.total_amount ≡ o.total_amount
  pub items : o'.items ≡ o.items
  pub status : (o'.status ≡ o.status) ⊎ Transition o.status o'.status

-- A row that holds what has become of an order.
abbrev pub Becomes : Order → Option Order → Type 0
Becomes o row = (o' : Order) × ((row ≡ some o') × Follows o o')

Follows-refl : (o : Order) → Follows o o
Follows-refl o = record { customer = refl; total = refl; items = refl; status = inl refl }

module _ {S : Type 0} (peers : Peers S) where
  -- An order that is cancelled, that failed or whose payment is unconfirmed is refused with 409, and
  -- nothing changes: no stock is released a second time.
  pub cancel_order_refused :
      (id : ℕ) (db : Database) (s : S) (o : Order)
      → lookup id db.orders ≡ some o
      → o.status ≢ paid
      → o.status ≢ pending
      → cancel_order peers id (db, s) ≡ (err (http 409), (db, s))
  unfolding cancel_order
  cancel_order_refused id db s o found not_paid not_pending = go o.status refl
    where
      refused :
          (st : OrderStatus)
          → cannot_cancel peers st ≡ true
          → o.status ≡ st
          → cancel_order peers id (db, s) ≡ (err (http 409), (db, s))
      refused st h e = rw (found, cancel_order) (rw (ap (cannot_cancel peers) e ∙ h) refl)

      go :
          (st : OrderStatus)
          → o.status ≡ st
          → cancel_order peers id (db, s) ≡ (err (http 409), (db, s))
      go paid e = absurd (not_paid e)
      go pending e = absurd (not_pending e)
      go cancelled e = refused cancelled refl e
      go payment_failed e = refused payment_failed refl e
      go payment_pending e = refused payment_pending refl e

  -- A request to cancel an order leaves every stored order with its customer, its total and its lines,
  -- and with its status or with a step to CANCELLED from PENDING or PAID.
  pub cancel_order-Follows :
      (id : ℕ) (db : Database) (s : S) (j : ℕ) (o : Order)
      → lookup j db.orders ≡ some o
      → Becomes o (lookup j (cancel_order peers id (db, s)).1.0.orders)
  unfolding cancel_order
  cancel_order-Follows id db s j o found = elim (Option-cases (lookup id db.orders)) [
    | inl missing ↦ rw (missing, cancel_order) (o, (found, Follows-refl o))
    | inr (c, known) ↦ rw (known, cancel_order) (tested c known c.status refl)
  ]
    where
      stays : Becomes o (lookup j db.orders)
      stays = (o, (found, Follows-refl o))

      updated :
          (c : Order)
          → lookup id db.orders ≡ some c
          → Transition c.status cancelled
          → (j == id) ≡ true
          → Becomes o (lookup j (insert id (record c { status = cancelled }) db.orders))
      updated c known t here =
          let same : c ≡ o = ground arith in
          (
            record c { status = cancelled },
            (
              ground (arith, lookup-insert j id (record c { status = cancelled }) db.orders),
              record {
                customer = ap (λ x. x.customer_id) same;
                total = ap (λ x. x.total_amount) same;
                items = ap (λ x. x.items) same;
                status = inr (subst (λ x. Transition x.status cancelled) same t);
              },
            ),
          )

      stored :
          (c : Order)
          → lookup id db.orders ≡ some c
          → Transition c.status cancelled
          → Becomes o (lookup j (insert id (record c { status = cancelled }) db.orders))
      stored c known t = elim (Bool-cases (j == id)) [
        | inl here ↦ updated c known t here
        | inr there ↦ (
          o,
          (
            ground (arith, lookup-insert j id (record c { status = cancelled }) db.orders),
            Follows-refl o,
          ),
        )
      ]

      answered :
          (c : Order)
          → lookup id db.orders ≡ some c
          → Transition c.status cancelled
          → (out : Result ProductError ⊤ × S)
          → Becomes o (lookup j (after_cancel peers id c db out).1.0.orders)
      answered c known t (ok released, s') = stored c known t
      answered c known t (err (service_error n), s') = stays
      answered c known t (err unavailable, s') = stays

      tested :
          (c : Order)
          → lookup id db.orders ≡ some c
          → (st : OrderStatus) → c.status ≡ st
          → Becomes o (
              lookup j
                (if cannot_cancel peers c.status
                  then (err (http 409), (db, s))
                  else after_cancel peers id c db (release_items peers c s)).1.0.orders)
      tested c known paid e =
          rw (e) (answered c known (rw (e) cancels_paid) (release_items peers c s))
      tested c known pending e =
          rw (e) (answered c known (rw (e) cancels_pending) (release_items peers c s))
      tested c known cancelled e = rw (e) stays
      tested c known payment_failed e = rw (e) stays
      tested c known payment_pending e = rw (e) stays
