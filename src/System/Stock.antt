-- ===== src/System/Stock.antt =====
-- The Product service behind its client keeps what the Order service relies on.
use commerceops_ai_platform.Base.{
  ⊤, ℕ, ◌+◌, ◌≤◌, ◌≡◌, refl, sym, ap, subst, ◌∙◌, inl, inr, Bool-cases, List, [], ◌∷◌, map, Result,
  ok, err, arith, leb, le→leb,
}
use commerceops_ai_platform.Reliability.{
  Failure, raised, retries_exhausted, circuit_open, bulkhead_full,
}
use commerceops_ai_platform.Reliability.Retry.{Timing}
use commerceops_ai_platform.Reliability.Retry.Rule.{Post, IsRule}
use commerceops_ai_platform.Reliability.Protected.{Guarded, protected_call}
use commerceops_ai_platform.Reliability.Protected.Rule.{outside, protected_call-Post}
use commerceops_ai_platform.Cache.{Redis}
use commerceops_ai_platform.Product.{HttpError, CacheKey, Reserved, stock_of}
use commerceops_ai_platform.Product.Stock.{Item, Session, reserve_stock}
use commerceops_ai_platform.Product.Stock.Sorted.{ordered, ordered-sorted}
use commerceops_ai_platform.Product.Stock.Reserve.{
  item_of, reserve_stock-Reservation, reserve_stock_atomic,
}
use commerceops_ai_platform.Product.Stock.Release.{release_stock_lem}
use commerceops_ai_platform.Product.Routes.{is_request, answer_of, reserve_route, release_route}
use commerceops_ai_platform.Payment.{Reply, response, PaymentRequest}
use commerceops_ai_platform.Order.{ProductError, Event, items_of}
use commerceops_ai_platform.Order.Stocked.{Takes, Returns}
use commerceops_ai_platform.Clients.ProductClient
use commerceops_ai_platform.Clients.ProductClient.{
  PostItems, is_unavailable, unwrap, read_reserved, read_released, reserve_once, release_once,
}
use commerceops_ai_platform.System.{Wiring}
use commerceops_ai_platform.System.Http.{Exchange, answered, refused, timeout, unreachable}

items_of-map : (taken : List Reserved) → items_of taken ≡ map item_of taken
items_of-map [] = refl
items_of-map (l ∷ ls) = ap (λ is. (l.product_id, l.quantity) ∷ is) (items_of-map ls)

-- What waiting and drawing do to a part of the world: nothing.
pub record IsApart {X P : Type 0} (part : X → P) (t : Timing X) : Type 0 where
  pub part-uniform : (d : ℕ) (x : X) → part (t.uniform d x).1 ≡ part x
  pub part-sleep : (d : ℕ) (x : X) → part (t.sleep d x) ≡ part x

module _ {C V : Type 0} (r : Redis C CacheKey V) where
  -- What a route does to the stock.
  abbrev Reserves : ℕ → Session r → Result ℕ (List Reserved) × Session r → Type 0
  Reserves k s (ok taken, s') = stock_of s'.0 k + ordered (items_of taken) k ≡ stock_of s.0 k
  Reserves k s (err n, s') = (stock_of s'.0 k ≡ stock_of s.0 k) × (400 ≤ n)

  reserve_route-Reserves :
      (items : List Item) (s : Session r) (k : ℕ) → Reserves k s (reserve_route r items s)
  unfolding reserve_route
  reserve_route-Reserves items s k = elim (Bool-cases (is_request items)) [
    | inr invalid ↦ rw invalid (refl, omega arith)
    | inl valid ↦ rw valid (go (reserve_stock r items s).0 (reserve_stock r items s).1 refl)
  ]
    where
      go :
          (o : Result HttpError (List Reserved)) (s' : Session r)
          → reserve_stock r items s ≡ (o, s')
          → Reserves k s (answer_of (o, s'))
      go (ok taken) s' e =
          let v = reserve_stock-Reservation r items s taken s' e in
          let lines = ap (λ is. ordered is k) (items_of-map taken ∙ v.lines) in
          omega (arith, v.stock k, lines, ordered-sorted items k)
      go (err x) s' e =
          let same = reserve_stock_atomic r items s x s' e in
          (ap (λ t. stock_of t k) same, ground arith)

  abbrev Releases : List Item → ℕ → Session r → Result ℕ ⊤ × Session r → Type 0
  Releases items k s (ok released, s') = stock_of s'.0 k ≤ stock_of s.0 k + ordered items k
  Releases items k s (err n, s') = (stock_of s'.0 k ≡ stock_of s.0 k) × (n ≡ 422)

  release_route-Releases :
      (items : List Item) (s : Session r) (k : ℕ) → Releases items k s (release_route r items s)
  unfolding release_route
  release_route-Releases items s k = elim (Bool-cases (is_request items)) [
    | inr invalid ↦ rw invalid (refl, refl)
    | inl valid ↦ rw valid (ground (arith, release_stock_lem r items s k))
  ]

  module _ {X : Type 0} (part : X → Session r) where
    abbrev pub left : X → ℕ → ℕ
    left x k = stock_of (part x).0 k

    -- What the wiring promises: the Product service's requests are exchanges with its routes that
    -- lose no reply, and nothing else touches its tables.
    pub record IsLossless (w : Wiring X) : Type 0 where
      pub reserve-Exchange :
          (items : List Item) (x : X)
          → Exchange part 200 (reserve_route r items) x (w.post_reserve items x)
      pub release-Exchange :
          (items : List Item) (x : X)
          → Exchange part 204 (release_route r items) x (w.post_release items x)
      pub product-IsApart : IsApart part w.product_setup.timing
      pub payment-IsApart : IsApart part w.payment_setup.timing
      pub part-post_payment :
          (request : PaymentRequest) (x : X) → part (w.post_payment request x).1 ≡ part x
      pub part-publish_event : (event : Event) (x : X) → part (w.publish_event event x) ≡ part x

    module _ (w : Wiring X) (laws : IsLossless w) (k n : ℕ) where
      abbrev Left : X → Type 0
      Left x = left x k ≡ n

      abbrev Took : List Reserved → X → Type 0
      Took taken x = left x k + ordered (items_of taken) k ≡ n

      reserve_once-Post :
          (items : List Item) (x : X)
          → Left x
          → Post Left Took (reserve_once w.post_reserve items x)
      unfolding reserve_once read_reserved
      reserve_once-Post items x i = go (laws.reserve-Exchange items x)
        where
          moved : Reserves k (part x) (reserve_route r items (part x))
          moved = reserve_route-Reserves items (part x) k

          from :
              (o : Reply (List Reserved) × X)
              → w.post_reserve items x ≡ o
              → Post Left Took (read_reserved o.0, o.1)
              → Post Left Took (reserve_once w.post_reserve items x)
          from o e h = subst (λ p. Post Left Took (read_reserved p.0, p.1)) (sym e) h

          go :
              Exchange part 200 (reserve_route r items) x (w.post_reserve items x)
              → Post Left Took (reserve_once w.post_reserve items x)
          go (answered body x' e out) =
              let m = subst (Reserves k (part x)) e moved in from _ out (m ∙ i)
          go (refused c body x' e out) =
              let m = subst (Reserves k (part x)) e moved in
              from _ out (elim (Bool-cases (leb 500 c)) [
                | inl big ↦ rw big (m.0 ∙ i)
                | inr small ↦ rw (small, le→leb 400 c m.1) (m.0 ∙ i)
              ])
          go (timeout x' e out) = from _ out (ap (λ s. stock_of s.0 k) e ∙ i)
          go (unreachable x' e out) = from _ out (ap (λ s. stock_of s.0 k) e ∙ i)

      module _ (items : List Item) where
        abbrev Gave : ⊤ → X → Type 0
        Gave done x = left x k ≤ n + ordered items k

        release_once-Post : (x : X) → Left x → Post Left Gave (release_once w.post_release items x)
        unfolding release_once read_released
        release_once-Post x i = go (laws.release-Exchange items x)
          where
            moved : Releases items k (part x) (release_route r items (part x))
            moved = release_route-Releases items (part x) k

            from :
                (o : Reply ⊤ × X)
                → w.post_release items x ≡ o
                → Post Left Gave (read_released o.0, o.1)
                → Post Left Gave (release_once w.post_release items x)
            from o e h = subst (λ p. Post Left Gave (read_released p.0, p.1)) (sym e) h

            go :
                Exchange part 204 (release_route r items) x (w.post_release items x)
                → Post Left Gave (release_once w.post_release items x)
            go (answered body x' e out) =
                let m = subst (Releases items k (part x)) e moved in
                from _ out (omega (arith, m, i))
            go (refused c body x' e out) =
                let m = subst (Releases items k (part x)) e moved in
                from _ out (
                  subst (λ c. Post Left Gave (read_released (response c body), x')) (sym m.1)
                    (m.0 ∙ i))
            go (timeout x' e out) = from _ out (ap (λ s. stock_of s.0 k) e ∙ i)
            go (unreachable x' e out) = from _ out (ap (λ s. stock_of s.0 k) e ∙ i)

        pub release-Post :
            (g : Guarded X)
            → Left g.1.1
            → Returns
                (λ g. left g.1.1)
                k
                items
                g
                (ProductClient.release w.product_setup w.post_release items g)
        unfolding ProductClient.release unwrap
        release-Post (b, (c, x)) i =
            go
              (protected_call w.product_setup is_unavailable (release_once w.post_release items)
                (b, (c, x)))
              (protected_call-Post w.product_setup is_unavailable
                (release_once w.post_release items) Left Gave rule b c x i)
          where
            rule : IsRule w.product_setup.timing (release_once w.post_release items) Left Gave
            rule = record {
              uniform =
                  λ d x i. ap (λ s. stock_of s.0 k) (laws.product-IsApart.part-uniform d x) ∙ i;
              sleep = λ d x i. ap (λ s. stock_of s.0 k) (laws.product-IsApart.part-sleep d x) ∙ i;
              attempt = release_once-Post;
            }

            go :
                (out : Result (Failure ProductError) ⊤ × Guarded X)
                → Post Left Gave (outside out)
                → Returns (λ g. left g.1.1) k items (b, (c, x)) (unwrap out.0, out.1)
            go (ok a, g) h = omega (arith, h, i)
            go (err (raised e), g) h = omega (arith, h, i)
            go (err (retries_exhausted e), g) h = omega (arith, h, i)
            go (err circuit_open, g) h = omega (arith, h, i)
            go (err bulkhead_full, g) h = omega (arith, h, i)

      pub reserve-Post :
          (items : List Item) (g : Guarded X)
          → Left g.1.1
          → Takes
              (λ g. left g.1.1)
              k
              g
              (ProductClient.reserve w.product_setup w.post_reserve items g)
      unfolding ProductClient.reserve unwrap
      reserve-Post items (b, (c, x)) i =
          go
            (protected_call w.product_setup is_unavailable (reserve_once w.post_reserve items)
              (b, (c, x)))
            (protected_call-Post w.product_setup is_unavailable (reserve_once w.post_reserve items)
              Left Took rule b c x i)
        where
          rule : IsRule w.product_setup.timing (reserve_once w.post_reserve items) Left Took
          rule = record {
            uniform = λ d x i. ap (λ s. stock_of s.0 k) (laws.product-IsApart.part-uniform d x) ∙ i;
            sleep = λ d x i. ap (λ s. stock_of s.0 k) (laws.product-IsApart.part-sleep d x) ∙ i;
            attempt = reserve_once-Post items;
          }

          go :
              (out : Result (Failure ProductError) (List Reserved) × Guarded X)
              → Post Left Took (outside out)
              → Takes (λ g. left g.1.1) k (b, (c, x)) (unwrap out.0, out.1)
          go (ok a, g) h = omega (arith, h, i)
          go (err (raised e), g) h = omega (arith, h, i)
          go (err (retries_exhausted e), g) h = omega (arith, h, i)
          go (err circuit_open, g) h = omega (arith, h, i)
          go (err bulkhead_full, g) h = omega (arith, h, i)
