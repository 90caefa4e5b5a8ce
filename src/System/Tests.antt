-- ===== src/System/Tests.antt =====
-- Two services in one process: the Product service's routes behind the Order service's client, and
-- the gateway behind the Payment service's.
use commerceops_ai_platform.Base.{
  ⊤, ℕ, zero, suc, ◌+◌, ◌*◌, arith, ◌≤◌, ◌≡◌, refl, Bool, true, false, none, String, List, [], ◌∷◌,
  Result, ok, err, Table,
}
use commerceops_ai_platform.Reliability.Breaker
use commerceops_ai_platform.Reliability.Bulkhead
use commerceops_ai_platform.Reliability.Protected.{Setup, Guarded, protected_call}
use commerceops_ai_platform.Reliability.Retry.{pause, retry_with_backoff}
use commerceops_ai_platform.Cache.Down.{down}
use commerceops_ai_platform.Product.{Product, stock_of}
use commerceops_ai_platform.Product.Stock.{Item, Session, reserve_stock, release_stock}
use commerceops_ai_platform.Product.Routes.{reserve_route, release_route}
use commerceops_ai_platform.Payment.{
  success, failed, approved, ChargeBody, IdempotencyKey, order_key, Reply, timed_out, response,
}
use commerceops_ai_platform.Payment.Gateway
use commerceops_ai_platform.FakeGateway.{Draws, Gateway, find_charge}
use commerceops_ai_platform.FakeGateway.Once.{count_key, IsConsistent}
use commerceops_ai_platform.Order.{Database, create_order, cancel_order}
use commerceops_ai_platform.Clients.ProductClient
use commerceops_ai_platform.Clients.PaymentClient
use commerceops_ai_platform.Order.Holdings.{held}
use commerceops_ai_platform.System.{Process, Wiring, peers}
use commerceops_ai_platform.System.Http.{Exchange, answered, refused, Delivery, exchanged, lost}
use commerceops_ai_platform.System.Stock.{IsLossless}
use commerceops_ai_platform.System.Requests.{Request, create, cancel, run, never_oversold}
use commerceops_ai_platform.System.Twice.{release_twice}
use commerceops_ai_platform.Product.Stock.Sorted.{ordered}
use commerceops_ai_platform.Reliability.Breaker.{on_success}
use commerceops_ai_platform.System.Charges.{charge_route, IsSequential, Charged, charge-Charged}

-- A connection that carries every request and every answer; a refusal's body is `blank`.
abbrev pub carried : {B P : Type 0} → ℕ → B → Result ℕ B × P → Reply B × P
carried code blank (ok body, p) = (response code body, p)
carried code blank (err n, p) = (response n blank, p)

pub carried-Exchange :
    {B P : Type 0} (code : ℕ) (blank : B) (route : P → Result ℕ B × P) (p : P) (o : Result ℕ B × P)
    → route p ≡ o
    → Exchange (λ x. x) code route p (carried code blank o)
carried-Exchange code blank route p (ok body, p') e = answered body p' e refl
carried-Exchange code blank route p (err n, p') e = refused n blank p' e refl

abbrev pub setup : {X : Type 0} → Setup X
setup = record {
  timing = record { uniform = λ d s. (d, s); sleep = λ d s. s };
  clock = λ s. 0;
  policy = record {
    attempts = 3;
    base_delay = 100;
    multiplier = 2;
    max_delay = 300;
    jitter = true;
  };
}

abbrev pub wiring : Wiring (Session down)
wiring = record {
  product_setup = setup;
  payment_setup = setup;
  post_reserve = λ items s. carried 200 [] (reserve_route down items s);
  post_release = λ items s. carried 204 tt (release_route down items s);
  post_payment = λ request s. (
    response 200 (record {
      order_id = request.order_id;
      status = success;
      transaction_id = "t";
      amount = request.amount;
      reason = approved;
    }),
    s,
  );
  publish_event = λ event s. s;
}

wiring-IsLossless : IsLossless down (λ s. s) wiring
wiring-IsLossless = record {
  reserve-Exchange = λ items s.
      carried-Exchange 200 [] (reserve_route down items) s (reserve_route down items s) refl;
  release-Exchange = λ items s.
      carried-Exchange 204 tt (release_route down items) s (release_route down items s) refl;
  product-IsApart = record { part-uniform = λ d s. refl; part-sleep = λ d s. refl };
  payment-IsApart = record { part-uniform = λ d s. refl; part-sleep = λ d s. refl };
  part-post_payment = λ request s. refl;
  part-publish_event = λ event s. refl;
}

abbrev pub shelf : Table Product
shelf = (4, record { name = "product"; description = none; price = 500; stock_quantity = 10 }) ∷ []

abbrev process : Process (Session down)
process = record {
  product_bulkhead = Bulkhead.init 5;
  product_breaker = Breaker.init 5 1000;
  payment_service_bulkhead = Bulkhead.init 5;
  payment_service_breaker = Breaker.init 5 1000;
  world = (shelf, tt);
}

abbrev pub customers : Table String
customers = (1, "customer") ∷ []

-- Six pieces are ordered, six more are refused, and the first order is cancelled before three more.
abbrev requests : List Request
requests = create 1 ((4, 6) ∷ []) ∷ create 1 ((4, 6) ∷ []) ∷ cancel 1 ∷ create 1 ((4, 3) ∷ []) ∷ []

abbrev ended : Database × Process (Session down)
ended =
    run (peers wiring) requests
      (record { customers = customers; orders = []; next_id = 1 }, process)

never_oversold_example : stock_of ended.1.world.0 4 + held ended.0.orders 4 ≤ stock_of shelf 4
never_oversold_example =
    never_oversold down (λ s. s) wiring wiring-IsLossless customers 1 process requests 4

-- A text for each key.
abbrev pub tally : ℕ → String
tally zero = ""
tally (suc n) = String.◌∷◌ "|" (tally n)

abbrev pub text_of : IdempotencyKey → String
text_of (order_key n) = String.◌∷◌ "o" (tally n)

abbrev pub draws : Draws
draws = record {
  error = false;
  approves = true;
  anonymous_key = "anonymous:1";
  transaction_id = "t1";
}

abbrev blank : ChargeBody
blank = record { status = failed; transaction_id = none }

-- The reply of the first charge is lost.
abbrev pub carried_later : List String → Result ℕ ChargeBody × Gateway → Reply ChargeBody × Gateway
carried_later [] (o, g) = (timed_out, g)
carried_later (a ∷ rest) o = carried 200 blank o

abbrev pub post : Gateway.Post Gateway
post order_id amount key g =
    carried_later g.charge_attempts (charge_route (text_of key) order_id amount draws g)

carried_later-Delivery :
    (attempts : List String) (route : Gateway → Result ℕ ChargeBody × Gateway) (g : Gateway)
    (o : Result ℕ ChargeBody × Gateway)
    → route g ≡ o
    → Delivery (λ x. x) 200 route g (carried_later attempts o)
carried_later-Delivery [] route g (o, g') e = lost o g' e refl
carried_later-Delivery (a ∷ rest) route g o e = exchanged (carried-Exchange 200 blank route g o e)

pub post-IsSequential : IsSequential (λ g. g) (λ g. draws) text_of (λ n d. refl) setup post
post-IsSequential = record {
  post-Delivery = λ order_id amount key g.
      carried_later-Delivery g.charge_attempts (charge_route (text_of key) order_id amount draws) g
        (charge_route (text_of key) order_id amount draws g) refl;
  gate-IsApart = record { part-uniform = λ d g. refl; part-sleep = λ d g. refl };
}

abbrev pub guarded : Guarded Gateway
guarded = (Bulkhead.init 2, (Breaker.init 5 1000, record { charges = []; charge_attempts = [] }))

pub empty-IsConsistent : IsConsistent (record { charges = []; charge_attempts = [] })
unfolding count_key find_charge
empty-IsConsistent key = refl

charge-Charged_example :
    let (outcome, g) = Gateway.charge setup post 7 500 guarded in
    IsConsistent g.1.1
    × Charged
        (λ g. g)
        (λ g. draws)
        text_of
        (λ n d. refl)
        setup
        post
        post-IsSequential
        7
        500
        outcome.status
        g.1.1
charge-Charged_example =
    charge-Charged (λ g. g) (λ g. draws) text_of (λ n d. refl) setup post post-IsSequential 7 500
      guarded empty-IsConsistent

-- Four of the ten pieces are left, and the orders keep three and none of the six.
ended_test : (stock_of ended.1.world.0 4 ≡ 7) × (held ended.0.orders 4 ≡ 3)
unfolding run create_order cancel_order ProductClient.reserve ProductClient.release protected_call
    Bulkhead.call Bulkhead.init Breaker.call Breaker.init retry_with_backoff
    ProductClient.reserve_once reserve_route reserve_stock PaymentClient.charge
    PaymentClient.charge_once ProductClient.release_once release_route release_stock
ended_test = (refl, refl)

-- The reply of the first release is lost after the route ran, and the release is sent again.
abbrev lossy_release : List Item → Session down × Bool → Reply ⊤ × (Session down × Bool)
lossy_release items (s, true) =
    let (reply, s') = carried 204 tt (release_route down items s) in (reply, (s', true))
lossy_release items (s, false) = (timed_out, ((release_route down items s).1, true))

abbrev lossy : Wiring (Session down × Bool)
lossy = record {
  product_setup = setup;
  payment_setup = setup;
  post_reserve = λ items x. let (reply, s) = wiring.post_reserve items x.0 in (reply, (s, x.1));
  post_release = lossy_release;
  post_payment = λ request x. ((wiring.post_payment request x.0).0, x);
  publish_event = λ event x. x;
}

abbrev lossy_ended : Database × Process (Session down × Bool)
lossy_ended = run (peers lossy) (create 1 ((4, 6) ∷ []) ∷ cancel 1 ∷ []) (
  record { customers = customers; orders = []; next_id = 1 },
  record {
    product_bulkhead = Bulkhead.init 5;
    product_breaker = Breaker.init 5 1000;
    payment_service_bulkhead = Bulkhead.init 5;
    payment_service_breaker = Breaker.init 5 1000;
    world = ((shelf, tt), false);
  },
)

-- Six pieces come back twice: of ten there are sixteen.
lossy_test : stock_of lossy_ended.1.world.0.0 4 ≡ 16
unfolding run create_order cancel_order ProductClient.reserve ProductClient.release protected_call
    Bulkhead.call Bulkhead.init Breaker.call Breaker.init retry_with_backoff
    ProductClient.reserve_once reserve_route reserve_stock PaymentClient.charge
    PaymentClient.charge_once ProductClient.release_once release_route release_stock
lossy_test = refl

abbrev order : List Item
order = (4, 6) ∷ []

abbrev before_release : Session down × Bool
before_release = ((shelf, tt), false)

abbrev lost_reply : Session down × Bool
lost_reply = (lossy_release order before_release).1

abbrev arrived_reply : Session down × Bool
arrived_reply = (lossy_release order lost_reply).1

release_twice_example :
    (ProductClient.release setup lossy_release order
        (Bulkhead.init 5, (Breaker.init 5 1000, before_release))
      ≡ (ok tt, (Bulkhead.init 5, (on_success (Breaker.init 5 1000), arrived_reply))))
    × (stock_of arrived_reply.0.0 4 ≡ stock_of shelf 4 + 2 * ordered order 4)
unfolding release_route release_stock Bulkhead.init Breaker.init pause
release_twice_example =
    release_twice down (λ x. x.0) lossy order (Bulkhead.init 5) (Breaker.init 5 1000) before_release
      lost_reply arrived_reply 4 (omega arith) (omega arith) refl refl refl refl refl refl refl
