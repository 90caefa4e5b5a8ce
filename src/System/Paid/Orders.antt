-- ===== src/System/Paid/Orders.antt =====
-- The Order service of app/order/service.py over the Payment service and the gateway: how often the
-- gateway charged the orders that are stored as PAID.
use commerceops_ai_platform.Base.{
  ℕ, ◌≤◌, ◌≡◌, refl, sym, ap, subst, some, String, List, [], ◌∷◌, if◌then◌else◌, Table, lookup,
  arith,
}
use commerceops_ai_platform.Reliability.Protected.{Setup, Guarded}
use commerceops_ai_platform.Product.Stock.{Item}
use commerceops_ai_platform.Payment.{IdempotencyKey, order_key, PaymentRequest}
use commerceops_ai_platform.Payment.Gateway
use commerceops_ai_platform.Payment.Gateway.{is_success}
use commerceops_ai_platform.Payment.Service.{Payment}
use commerceops_ai_platform.FakeGateway
use commerceops_ai_platform.FakeGateway.{Draws, Gateway}
use commerceops_ai_platform.Order.{paid, Order, Database}
use commerceops_ai_platform.Order.Paid.{
  is_paid, owed, Onward, IsMetered, IsPaidFor, create_order-IsPaidFor, cancel_order-IsPaidFor,
}
use commerceops_ai_platform.Clients.ProductClient
use commerceops_ai_platform.Clients.ProductClient.{is_unavailable, reserve_once, release_once}
use commerceops_ai_platform.System.{Process, Wiring, peers}
use commerceops_ai_platform.System.Charges.{IsSequential}
use commerceops_ai_platform.System.Payments.{charges, IsBacked}
use commerceops_ai_platform.System.Apart.{protected_call_apart}
use commerceops_ai_platform.System.Paid.{IsWired, charge-Confirmed_paid}
use commerceops_ai_platform.System.Requests.{Request, create, cancel, serve, run}

module _ {Z Y : Type 0} (gate : Z → Gateway) (draws : Z → Draws) (text_of : IdempotencyKey → String)
    (named : (order_id : ℕ) (d : Draws)
      → FakeGateway.key_of (some (text_of (order_key order_id))) d ≡ text_of (order_key order_id))
    (setup : Setup Z) (post : Gateway.Post Z)
    (laws : IsSequential gate draws text_of named setup post) (books : Y → List Payment × Guarded Z)
    (uuid : Y → String) (w : Wiring Y)
    (wired : IsWired gate draws text_of named setup post laws books uuid w) where
  -- The books of the Payment service are in order.
  abbrev pub InOrder : Process Y → Type 0
  InOrder p = IsBacked gate draws text_of named setup post laws 0 0 (books p.world)

  -- How often the gateway charged an order.
  abbrev pub times : ℕ → Process Y → ℕ
  times n p = charges gate draws text_of named setup post laws n (books p.world).1

  same-Onward :
      (p p' : Process Y) → books p'.world ≡ books p.world → InOrder p → Onward InOrder times p p'
  same-Onward p p' e v = record {
    still_good = subst (λ b. IsBacked gate draws text_of named setup post laws 0 0 b) (sym e) v;
    grown = λ n.
        let same = ap (λ b. charges gate draws text_of named setup post laws n b.1) e in
        omega (arith, same);
  }

  reserve-same :
      (items : List Item) (g : Guarded Y)
      → books (ProductClient.reserve w.product_setup w.post_reserve items g).1.1.1 ≡ books g.1.1
  unfolding ProductClient.reserve reserve_once
  reserve-same items g =
      protected_call_apart books w.product_setup is_unavailable (reserve_once w.post_reserve items)
        wired.product-IsApart (wired.books-post_reserve items) (books g.1.1) g refl

  release-same :
      (items : List Item) (g : Guarded Y)
      → books (ProductClient.release w.product_setup w.post_release items g).1.1.1 ≡ books g.1.1
  unfolding ProductClient.release release_once
  release-same items g =
      protected_call_apart books w.product_setup is_unavailable (release_once w.post_release items)
        wired.product-IsApart (wired.books-post_release items) (books g.1.1) g refl

  with_floor :
      (watched floor : ℕ) (p : Process Y)
      → InOrder p
      → floor ≤ times watched p
      → IsBacked gate draws text_of named setup post laws watched floor (books p.world)
  with_floor watched floor p v h = record {
    consistent = v.consistent;
    backed = v.backed;
    grown = h;
  }

  abbrev guarded : Process Y → Guarded Y
  guarded p = (p.payment_service_bulkhead, (p.payment_service_breaker, p.world))

  charge-Onward :
      (request : PaymentRequest) (p : Process Y)
      → InOrder p
      → Onward InOrder times p ((peers w).charge request p).1
  charge-Onward request p v = record {
    still_good =
        (charge-Confirmed_paid gate draws text_of named setup post laws books uuid w wired 0 0
          request (guarded p) v).0;
    grown = λ n.
        (charge-Confirmed_paid gate draws text_of named setup post laws books uuid w wired n
          (times n p) request (guarded p) (with_floor n (times n p) p v (omega arith))).0.grown;
  }

  charge-due :
      (request : PaymentRequest) (p : Process Y)
      → InOrder p
      → (if is_success ((peers w).charge request p).0.status then 1 else 0)
        ≤ times request.order_id ((peers w).charge request p).1
  charge-due request p v =
      (charge-Confirmed_paid gate draws text_of named setup post laws books uuid w wired 0 0 request
        (guarded p) v).1

  peers-IsMetered : IsMetered InOrder times (peers w)
  peers-IsMetered = record {
    reserve-Onward = λ items p v.
        same-Onward p ((peers w).reserve items p).1
          (reserve-same items (p.product_bulkhead, (p.product_breaker, p.world))) v;
    release-Onward = λ items p v.
        same-Onward p ((peers w).release items p).1
          (release-same items (p.product_bulkhead, (p.product_breaker, p.world))) v;
    charge-Onward = charge-Onward;
    publish-Onward = λ event p v.
        same-Onward p ((peers w).publish event p) (wired.books-publish_event event p.world) v;
    charge-due = charge-due;
  }

  run-IsPaidFor :
      (qs : List Request) (a : Database × Process Y)
      → IsPaidFor InOrder times a
      → IsPaidFor InOrder times (run (peers w) qs a)
  unfolding run serve
  run-IsPaidFor [] a v = v
  run-IsPaidFor (create c items ∷ qs) (db, p) v =
      run-IsPaidFor qs (serve (peers w) (create c items) (db, p))
        (create_order-IsPaidFor InOrder times (peers w) peers-IsMetered c items db p v)
  run-IsPaidFor (cancel id ∷ qs) (db, p) v =
      run-IsPaidFor qs (serve (peers w) (cancel id) (db, p))
        (cancel_order-IsPaidFor InOrder times (peers w) peers-IsMetered id db p v)

  -- Requests to create and to cancel orders run one after another, from an empty table of orders and
  -- from a Payment service whose SUCCESS rows the gateway charged and whose gateway's books are
  -- consistent; the requests to the Payment service and to the gateway do not overlap, but any
  -- reply may be lost and any request be retried; nothing else reaches the two, and a key's text is
  -- not empty. Then the gateway has executed the charge of each order that is stored as PAID
  -- exactly once.
  pub paid_charged_once :
      (customers : Table String) (next_id : ℕ) (process : Process Y) (qs : List Request)
      (db : Database) (after : Process Y) (id : ℕ) (o : Order)
      → InOrder process
      → run (peers w) qs (record { customers = customers; orders = []; next_id = next_id }, process)
        ≡ (db, after)
      → lookup id db.orders ≡ some o
      → o.status ≡ paid
      → times id after ≡ 1
  paid_charged_once customers next_id process qs db after id o v e found st =
      let ended : IsPaidFor InOrder times (db, after) = subst (IsPaidFor InOrder times) e (
        run-IsPaidFor qs (record { customers = customers; orders = []; next_id = next_id }, process)
          (record { world = v; paid_for = λ n. omega arith })) in
      let row = ap owed found in
      let due = ap {B = ℕ} (λ s. if is_paid s then 1 else 0) st in
      ground (arith, ended.paid_for id, row, due, ended.world.consistent (text_of (order_key id)))
