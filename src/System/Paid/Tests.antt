-- ===== src/System/Paid/Tests.antt =====
-- The three services in one process: the reply of the first request to the Payment service is lost,
-- and so is the gateway's first.
use commerceops_ai_platform.Base.{ℕ, ◌≡◌, refl, some, List, [], ◌∷◌, Result, ok, err, lookup, arith}
use commerceops_ai_platform.Reliability.Breaker
use commerceops_ai_platform.Reliability.Bulkhead
use commerceops_ai_platform.Reliability.Protected.{Guarded, protected_call}
use commerceops_ai_platform.Reliability.Retry.{pause, retry_with_backoff}
use commerceops_ai_platform.Cache.Down.{down}
use commerceops_ai_platform.Product.Stock.{Session, reserve_stock}
use commerceops_ai_platform.Product.Routes.{reserve_route}
use commerceops_ai_platform.Payment.{
  unknown, retries_exhausted, PaymentRequest, PaymentResult, Reply, timed_out,
}
use commerceops_ai_platform.Payment.Service.{Payment, find_payment}
use commerceops_ai_platform.Payment.Service
use commerceops_ai_platform.Payment.Gateway
use commerceops_ai_platform.Payment.Router.{create_payment}
use commerceops_ai_platform.FakeGateway
use commerceops_ai_platform.FakeGateway.{Gateway}
use commerceops_ai_platform.Order.{paid, Order, Database, create_order}
use commerceops_ai_platform.Clients.ProductClient
use commerceops_ai_platform.Clients.PaymentClient
use commerceops_ai_platform.System.{Process, Wiring, peers}
use commerceops_ai_platform.System.Http.{Delivery, exchanged, lost, answered, refused}
use commerceops_ai_platform.System.Tests.{
  carried, setup, wiring, shelf, customers, text_of, draws, post, guarded, post-IsSequential,
  empty-IsConsistent,
}
use commerceops_ai_platform.System.Payments.{route}
use commerceops_ai_platform.System.Requests.{create, run}
use commerceops_ai_platform.System.Paid.{IsWired}
use commerceops_ai_platform.System.Paid.Orders.{InOrder, times, paid_charged_once}

abbrev Books : Type 0
Books = List Payment × Guarded Gateway

abbrev World : Type 0
World = Session down × Books

abbrev books : World → Books
books y = y.1

abbrev routed : PaymentRequest → Books → Result ℕ PaymentResult × Books
routed = route (λ g. g) (λ g. draws) text_of (λ n d. refl) setup post post-IsSequential "uuid"

abbrev blank : PaymentResult
blank = record {
  order_id = 0;
  status = unknown;
  transaction_id = "";
  amount = 0;
  reason = retries_exhausted;
}

-- No row is there yet where the reply is lost.
abbrev carried_later :
    List Payment → Session down → Result ℕ PaymentResult × Books → Reply PaymentResult × World
carried_later [] s (o, b) = (timed_out, (s, b))
carried_later (row ∷ rows) s o = let (reply, b) = carried 201 blank o in (reply, (s, b))

carried_later-Delivery :
    (rows : List Payment) (s : Session down) (request : PaymentRequest) (b : Books)
    (o : Result ℕ PaymentResult × Books)
    → routed request b ≡ o
    → Delivery books 201 (routed request) (s, b) (carried_later rows s o)
carried_later-Delivery [] s request b (o, b') e = lost o (s, b') e refl
carried_later-Delivery (row ∷ rows) s request b (ok body, b') e =
    exchanged (answered body (s, b') e refl)
carried_later-Delivery (row ∷ rows) s request b (err n, b') e =
    exchanged (refused n blank (s, b') e refl)

abbrev wires : Wiring World
wires = record {
  product_setup = setup;
  payment_setup = setup;
  post_reserve = λ items y. let (reply, s) = wiring.post_reserve items y.0 in (reply, (s, y.1));
  post_release = λ items y. let (reply, s) = wiring.post_release items y.0 in (reply, (s, y.1));
  post_payment = λ request y. carried_later y.1.0 y.0 (routed request y.1);
  publish_event = λ event y. y;
}

wires-IsWired :
    IsWired
      (λ g. g)
      (λ g. draws)
      text_of
      (λ n d. refl)
      setup
      post
      post-IsSequential
      books
      (λ y. "uuid")
      wires
wires-IsWired = record {
  payment-Delivery =
      λ request y. carried_later-Delivery y.1.0 y.0 request y.1 (routed request y.1) refl;
  payment-IsApart = record { part-uniform = λ d y. refl; part-sleep = λ d y. refl };
  product-IsApart = record { part-uniform = λ d y. refl; part-sleep = λ d y. refl };
  books-post_reserve = λ items y. refl;
  books-post_release = λ items y. refl;
  books-publish_event = λ event y. refl;
}

abbrev process : Process World
process = record {
  product_bulkhead = Bulkhead.init 5;
  product_breaker = Breaker.init 5 1000;
  payment_service_bulkhead = Bulkhead.init 5;
  payment_service_breaker = Breaker.init 5 1000;
  world = ((shelf, tt), ([], guarded));
}

process-InOrder :
    InOrder
      (λ g. g)
      (λ g. draws)
      text_of
      (λ n d. refl)
      setup
      post
      post-IsSequential
      books
      (λ y. "uuid")
      wires
      wires-IsWired
      process
unfolding find_payment
process-InOrder = record {
  consistent = empty-IsConsistent;
  backed = λ n. omega arith;
  grown = omega arith;
}

abbrev start : Database
start = record { customers = customers; orders = []; next_id = 1 }

abbrev ended : Database × Process World
ended = run (peers wires) (create 1 ((4, 6) ∷ []) ∷ []) (start, process)

abbrev order : Order
order = record {
  customer_id = 1;
  status = paid;
  total_amount = 3000;
  items = record { product_id = 4; quantity = 6; unit_price = 500 } ∷ [];
}

order_stored : lookup 1 ended.0.orders ≡ some order
unfolding run create_order ProductClient.reserve protected_call Bulkhead.call Bulkhead.init
    Breaker.call Breaker.init retry_with_backoff ProductClient.reserve_once reserve_route
    reserve_stock PaymentClient.charge PaymentClient.charge_once create_payment Service.charge
    Service.store find_payment Gateway.charge Gateway.post_charge pause FakeGateway.charge
order_stored = refl

paid_charged_once_example :
    times
      (λ g. g)
      (λ g. draws)
      text_of
      (λ n d. refl)
      setup
      post
      post-IsSequential
      books
      (λ y. "uuid")
      wires
      wires-IsWired
      1
      ended.1
    ≡ 1
paid_charged_once_example =
    paid_charged_once (λ g. g) (λ g. draws) text_of (λ n d. refl) setup post post-IsSequential books
      (λ y. "uuid") wires wires-IsWired customers 1 process (create 1 ((4, 6) ∷ []) ∷ []) ended.0
      ended.1 1 order process-InOrder refl order_stored refl
