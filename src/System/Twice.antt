-- ===== src/System/Twice.antt =====
-- A release whose first reply is lost.
use commerceops_ai_platform.Base.{
  ℕ, ◌+◌, ◌*◌, ◌<◌, ◌≡◌, refl, ap, ◌∙◌, true, List, if◌then◌else◌, ok, arith,
}
use commerceops_ai_platform.Reliability.Retry.{pause}
use commerceops_ai_platform.Reliability.Breaker.{Breaker, closed, on_success}
use commerceops_ai_platform.Reliability.Bulkhead.{Bulkhead}
use commerceops_ai_platform.Reliability.Protected.Retried.{protected_call_second}
use commerceops_ai_platform.Cache.{Redis}
use commerceops_ai_platform.Product.{CacheKey, stock_of}
use commerceops_ai_platform.Product.Stock.{Item, Session, release_stock}
use commerceops_ai_platform.Product.Stock.Sorted.{ordered}
use commerceops_ai_platform.Product.Stock.Release.{has_row, release_stock_lem}
use commerceops_ai_platform.Payment.{timed_out, response}
use commerceops_ai_platform.Order.{unavailable}
use commerceops_ai_platform.Clients.ProductClient
use commerceops_ai_platform.Clients.ProductClient.{
  is_unavailable, unwrap, read_released, release_once,
}
use commerceops_ai_platform.System.{Wiring}
use commerceops_ai_platform.System.Stock.{left}

module _ {C V X : Type 0} (r : Redis C CacheKey V) (part : X → Session r) (w : Wiring X) where
  -- The product client sends a release, the Product service carries it out and the reply is lost; after
  -- the pause it is sent and carried out again, and this reply arrives. With two attempts or more, a
  -- free permit and a closed breaker, where pausing does not touch the Product service, the release
  -- succeeds, and every product that exists has got back twice what was to be released.
  pub release_twice :
      (items : List Item) (b : Bulkhead) (c : Breaker) (x x1 x2 : X) (k : ℕ)
      → 1 < w.product_setup.policy.attempts
      → 0 < b.permits
      → c.state ≡ closed
      → part (pause w.product_setup.timing w.product_setup.policy 1 x1) ≡ part x1
      → w.post_release items x ≡ (timed_out, x1)
      → part x1 ≡ release_stock r items (part x)
      → w.post_release items (pause w.product_setup.timing w.product_setup.policy 1 x1)
        ≡ (response 204 tt, x2)
      → part x2
        ≡ release_stock r items (part (pause w.product_setup.timing w.product_setup.policy 1 x1))
      → has_row (part x).0 k ≡ true
      → (ProductClient.release w.product_setup w.post_release items (b, (c, x))
          ≡ (ok tt, (b, (on_success c, x2))))
        × (left r part x2 k ≡ left r part x k + 2 * ordered items k)
  unfolding ProductClient.release unwrap release_once read_released
  release_twice items b c x x1 x2 k more free shut apart first ran1 second ran2 exists = (
    ap (λ o. (unwrap o.0, o.1))
        (protected_call_second w.product_setup is_unavailable (release_once w.post_release items) b
          c x x1 x2 unavailable tt more free shut (ap (λ o. (read_released o.0, o.1)) first) refl
          (ap (λ o. (read_released o.0, o.1)) second)),
    stock,
  )
    where
      once : stock_of (part x1).0 k ≡ stock_of (part x).0 k + ordered items k
      once =
          ap (λ s. stock_of s.0 k) ran1
          ∙ (release_stock_lem r items (part x) k).1
          ∙ ap (λ e. if e then stock_of (part x).0 k + ordered items k else 0) exists

      still : has_row (part x1).0 k ≡ true
      still = ap (λ s. has_row s.0 k) ran1 ∙ (release_stock_lem r items (part x) k).0 ∙ exists

      again : stock_of (part x2).0 k ≡ stock_of (part x1).0 k + ordered items k
      again =
          ap (λ s. stock_of s.0 k) (ran2 ∙ ap (λ s. release_stock r items s) apart)
          ∙ (release_stock_lem r items (part x1) k).1
          ∙ ap (λ e. if e then stock_of (part x1).0 k + ordered items k else 0) still

      stock : left r part x2 k ≡ left r part x k + 2 * ordered items k
      stock = omega (arith, once, again)
