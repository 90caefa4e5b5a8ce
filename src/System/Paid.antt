-- ===== src/System/Paid.antt =====
-- From `payment_client.charge` of the Order service to the gateway: the requests of
-- app/clients/payment_client.py to `POST /payments`, beside all else that the Order service sends.
pub mod Orders
mod Tests
use commerceops_ai_platform.Base.{
  ⊤, ℕ, ◌≤◌, ◌≡◌, refl, sym, ap, subst, ◌∙◌, Option, none, some, String, List, Result, ok, err,
  arith,
}
use commerceops_ai_platform.Reliability.{Failure}
use commerceops_ai_platform.Reliability.Failures
use commerceops_ai_platform.Reliability.Retry.{Timing}
use commerceops_ai_platform.Reliability.Retry.Rule.{Post, IsRule}
use commerceops_ai_platform.Reliability.Protected.{Setup, Guarded, protected_call}
use commerceops_ai_platform.Reliability.Protected.Rule.{outside, protected_call-Post}
use commerceops_ai_platform.Product.{Reserved}
use commerceops_ai_platform.Product.Stock.{Item}
use commerceops_ai_platform.Payment.{
  IdempotencyKey, order_key, PaymentRequest, PaymentResult, Reply, response,
}
use commerceops_ai_platform.Payment.Gateway
use commerceops_ai_platform.Payment.Service.{Payment}
use commerceops_ai_platform.FakeGateway
use commerceops_ai_platform.FakeGateway.{Draws, Gateway}
use commerceops_ai_platform.Order.{ProductError, Event}
use commerceops_ai_platform.Clients.PaymentClient
use commerceops_ai_platform.Clients.PaymentClient.{
  PaymentError, payment_unavailable, read_payment, charge_once, is_unavailable, result_of,
}
use commerceops_ai_platform.System.{Wiring}
use commerceops_ai_platform.System.Http.{
  Delivery, exchanged, lost, answered, refused, timeout, unreachable, Delivery-keeps,
}
use commerceops_ai_platform.System.Stock.{IsApart}
use commerceops_ai_platform.System.Charges.{IsSequential}
use commerceops_ai_platform.System.Payments.{due, charges, IsBacked, route, Backs, route-Backs}

module _ {Z Y : Type 0} (gate : Z → Gateway) (draws : Z → Draws) (text_of : IdempotencyKey → String)
    (named : (order_id : ℕ) (d : Draws)
      → FakeGateway.key_of (some (text_of (order_key order_id))) d ≡ text_of (order_key order_id))
    (setup : Setup Z) (post : Gateway.Post Z)
    (laws : IsSequential gate draws text_of named setup post) (books : Y → List Payment × Guarded Z)
    (uuid : Y → String) where
  -- What is relied on of the Order service's requests: those to the Payment service run its route once
  -- at most, one after another, and their replies may be lost; nothing else touches its books.
  pub record IsWired (w : Wiring Y) : Type 0 where
    pub payment-Delivery :
        (request : PaymentRequest) (y : Y)
        → Delivery books 201
            (route gate draws text_of named setup post laws (uuid y) request)
            y
            (w.post_payment request y)
    pub payment-IsApart : IsApart books w.payment_setup.timing
    pub product-IsApart : IsApart books w.product_setup.timing
    pub books-post_reserve :
        (items : List Item) (y : Y) → books (w.post_reserve items y).1 ≡ books y
    pub books-post_release :
        (items : List Item) (y : Y) → books (w.post_release items y).1 ≡ books y
    pub books-publish_event : (event : Event) (y : Y) → books (w.publish_event event y) ≡ books y

  module _ (w : Wiring Y) (wired : IsWired w) (watched floor : ℕ) (request : PaymentRequest) where
    abbrev pub Held : Y → Type 0
    Held y = IsBacked gate draws text_of named setup post laws watched floor (books y)

    -- The gateway charged the order of a SUCCESS.
    abbrev pub Confirmed : PaymentResult → Y → Type 0
    Confirmed result y =
        Held y
        × (due (some result)
            ≤ charges gate draws text_of named setup post laws request.order_id (books y).1)

    abbrev Answer : Type 0
    Answer = Result ℕ PaymentResult × (List Payment × Guarded Z)

    abbrev Backed : Answer → Type 0
    Backed = Backs gate draws text_of named setup post laws watched floor request.order_id

    Backed-IsBacked :
        (o : Answer)
        → Backed o
        → IsBacked gate draws text_of named setup post laws watched floor o.1
    Backed-IsBacked (ok result, p) b = b.0
    Backed-IsBacked (err n, p) b = b.0

    charge_once-Post : (y : Y) → Held y → Post Held Confirmed (charge_once w.post_payment request y)
    unfolding charge_once read_payment
    charge_once-Post y v = delivered (wired.payment-Delivery request y)
      where
        backed : Backed (route gate draws text_of named setup post laws (uuid y) request (books y))
        backed =
            route-Backs gate draws text_of named setup post laws watched floor (uuid y) request
              (books y) v

        from :
            (o : Reply PaymentResult × Y)
            → w.post_payment request y ≡ o
            → Post Held Confirmed (read_payment o.0, o.1)
            → Post Held Confirmed (charge_once w.post_payment request y)
        from o e h = subst (λ p. Post Held Confirmed (read_payment p.0, p.1)) (sym e) h

        held : (p : List Payment × Guarded Z) → Type 0
        held p = IsBacked gate draws text_of named setup post laws watched floor p

        delivered :
            Delivery books 201
              (route gate draws text_of named setup post laws (uuid y) request)
              y
              (w.post_payment request y)
            → Post Held Confirmed (charge_once w.post_payment request y)
        delivered (lost reply y' e out) = from _ out (Backed-IsBacked _ (subst Backed e backed))
        delivered (exchanged (answered body y' e out)) = from _ out (subst Backed e backed)
        delivered (exchanged (refused c body y' e out)) =
            let b = subst Backed e backed in
            from _ out
              (subst (λ n. Post Held Confirmed (read_payment (response n body), y')) (sym b.1) b.0)
        delivered (exchanged (timeout y' e out)) = from _ out (subst held (sym e) v)
        delivered (exchanged (unreachable y' e out)) = from _ out (subst held (sym e) v)

    claimed :
        (out : Result (Failure PaymentError) PaymentResult × Guarded Y)
        → Post Held Confirmed (outside out)
        → Confirmed (result_of request out.0) out.1.1.1
    unfolding result_of
    claimed (ok result, g) h = h
    claimed (err (Failures.raised payment_unavailable), g) h = (h, omega arith)
    claimed (err (Failures.retries_exhausted e), g) h = (h, omega arith)
    claimed (err Failures.circuit_open, g) h = (h, omega arith)
    claimed (err Failures.bulkhead_full, g) h = (h, omega arith)

    pub charge-Confirmed_paid :
        (g : Guarded Y)
        → Held g.1.1
        → let (result, g') = PaymentClient.charge w.payment_setup w.post_payment request g in
          Confirmed result g'.1.1
    unfolding PaymentClient.charge
    charge-Confirmed_paid (b, (c, y)) v =
        claimed
          (protected_call w.payment_setup is_unavailable (charge_once w.post_payment request)
            (b, (c, y)))
          (protected_call-Post w.payment_setup is_unavailable (charge_once w.post_payment request)
            Held Confirmed rule b c y v)
      where
        held : (p : List Payment × Guarded Z) → Type 0
        held p = IsBacked gate draws text_of named setup post laws watched floor p

        rule : IsRule w.payment_setup.timing (charge_once w.post_payment request) Held Confirmed
        rule = record {
          uniform = λ d y v. subst held (sym (wired.payment-IsApart.part-uniform d y)) v;
          sleep = λ d y v. subst held (sym (wired.payment-IsApart.part-sleep d y)) v;
          attempt = charge_once-Post;
        }
