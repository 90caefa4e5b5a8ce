-- ===== src/System/Stocked.antt =====
-- The wired peers keep what the Order service relies on.
use commerceops_ai_platform.Base.{⊤, ℕ, ◌≡◌, refl, ap, List, Result, ok, err, arith}
use commerceops_ai_platform.Reliability.Protected.{Guarded}
use commerceops_ai_platform.Cache.{Redis}
use commerceops_ai_platform.Product.{CacheKey, Reserved, stock_of}
use commerceops_ai_platform.Product.Stock.{Item, Session}
use commerceops_ai_platform.Payment.{PaymentRequest}
use commerceops_ai_platform.Order.{ProductError}
use commerceops_ai_platform.Order.Stocked.{Takes, Returns, IsStocked}
use commerceops_ai_platform.Clients.ProductClient
use commerceops_ai_platform.Clients.PaymentClient
use commerceops_ai_platform.Clients.PaymentClient.{
  PaymentError, read_payment, charge_once, is_unavailable,
}
use commerceops_ai_platform.System.{Process, Wiring, with_product, peers}
use commerceops_ai_platform.System.Apart.{protected_call_apart}
use commerceops_ai_platform.System.Stock.{IsLossless, left, reserve-Post, release-Post}

module _ {C V X : Type 0} (r : Redis C CacheKey V) (part : X → Session r) (w : Wiring X)
    (laws : IsLossless r part w) where
  -- The stock of the Product service's table.
  abbrev pub stock : Process X → ℕ → ℕ
  stock p k = left r part p.world k

  charge-Same :
      (request : PaymentRequest) (g : Guarded X)
      → part (PaymentClient.charge w.payment_setup w.post_payment request g).1.1.1 ≡ part g.1.1
  unfolding PaymentClient.charge charge_once
  charge-Same request g =
      protected_call_apart part w.payment_setup is_unavailable (charge_once w.post_payment request)
        laws.payment-IsApart (laws.part-post_payment request) (part g.1.1) g refl

  reserve-Takes :
      (items : List Item) (p : Process X) (k : ℕ) → Takes stock k p ((peers w).reserve items p)
  reserve-Takes items p k =
      go
        (ProductClient.reserve w.product_setup w.post_reserve items
          (p.product_bulkhead, (p.product_breaker, p.world)))
        (reserve-Post r part w laws k (stock p k) items
          (p.product_bulkhead, (p.product_breaker, p.world)) refl)
    where
      go :
          (out : Result ProductError (List Reserved) × Guarded X)
          → Takes (λ g. left r part g.1.1) k (p.product_bulkhead, (p.product_breaker, p.world)) out
          → Takes stock k p (with_product w p out)
      go (ok a, (b, (c, x))) h = h
      go (err e, (b, (c, x))) h = h

  release-Returns :
      (items : List Item) (p : Process X) (k : ℕ)
      → Returns stock k items p ((peers w).release items p)
  release-Returns items p k =
      go
        (ProductClient.release w.product_setup w.post_release items
          (p.product_bulkhead, (p.product_breaker, p.world)))
        (release-Post r part w laws k (stock p k) items
          (p.product_bulkhead, (p.product_breaker, p.world)) refl)
    where
      go :
          (out : Result ProductError ⊤ × Guarded X)
          → Returns
              (λ g. left r part g.1.1)
              k
              items
              (p.product_bulkhead, (p.product_breaker, p.world))
              out
          → Returns stock k items p (with_product w p out)
      go (ok a, (b, (c, x))) h = h
      go (err e, (b, (c, x))) h = h

  -- The Order service's peers, over exchanges that lose no reply: what is reserved is taken from the
  -- stock, what is released comes back at most, and nothing else moves stock.
  pub peers-IsStocked : IsStocked stock (peers w)
  peers-IsStocked = record {
    reserve-Takes = reserve-Takes;
    release-Returns = release-Returns;
    charge-le = λ request p k.
        let g : Guarded X = (p.payment_service_bulkhead, (p.payment_service_breaker, p.world)) in
        omega (arith, ap (λ s. stock_of s.0 k) (charge-Same request g));
    publish-le = λ event p k.
        omega (arith, ap (λ s. stock_of s.0 k) (laws.part-publish_event event p.world));
  }
