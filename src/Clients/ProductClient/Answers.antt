-- ===== src/Clients/ProductClient/Answers.antt =====
-- What each result of `reserve` says of the Product service.
use commerceops_ai_platform.Base.{
  ℕ, ◌<◌, ◌≤◌, ◌≡◌, refl, sym, ap, ◌∙◌, List, Result, ok, err, arith,
}
use commerceops_ai_platform.Reliability.{
  Failure, raised, retries_exhausted, circuit_open, bulkhead_full,
}
use commerceops_ai_platform.Reliability.Bulkhead.{Bulkhead}
use commerceops_ai_platform.Reliability.Breaker.{Breaker}
use commerceops_ai_platform.Reliability.Protected.{Setup}
use commerceops_ai_platform.Reliability.Protected.Layers.{Decided, protected_call-Decided}
use commerceops_ai_platform.Product.{Reserved}
use commerceops_ai_platform.Product.Stock.{Item}
use commerceops_ai_platform.Payment.{Reply, timed_out, transport_error, response}
use commerceops_ai_platform.Order.{ProductError, service_error, unavailable}
use commerceops_ai_platform.Clients.ProductClient.{
  PostItems, read_reserved, is_unavailable, unwrap, reserve_once, reserve,
}

module _ {S : Type 0} (setup : Setup S) (post : PostItems S (List Reserved))
    (items : List Item) where
  -- What a result of `reserve` stands for, `s'` being the state after it.
  abbrev pub Means : Result ProductError (List Reserved) → S → Type 0
  Means (ok reserved) s' =
      (before : S) × (code : ℕ) × (post items before ≡ (response code reserved, s')) × (code < 400)
  Means (err (service_error n)) s' =
      (before : S) × (body : List Reserved) × (post items before ≡ (response n body, s'))
      × (400 ≤ n)
      × (n < 500)
  Means (err unavailable) s' = Unit

  -- What one attempt gave.
  reserve_once-Means :
      (before s' : S) (x : Result ProductError (List Reserved))
      → reserve_once post items before ≡ (x, s')
      → Means x s'
  unfolding reserve_once
  reserve_once-Means before s' x h = go (post items before).0 refl x (ap (λ o. o.0) h)
    where
      after : (post items before).1 ≡ s'
      after = ap (λ o. o.1) h

      go :
          (reply : Reply (List Reserved))
          → (post items before).0 ≡ reply
          → (x : Result ProductError (List Reserved)) → read_reserved (post items before).0 ≡ x
          → Means x s'
      go timed_out e (err unavailable) f = tt
      go timed_out e (ok a) f = absurd (ground arith)
      go timed_out e (err (service_error n)) f = absurd (ground arith)
      go transport_error e (err unavailable) f = tt
      go transport_error e (ok a) f = absurd (ground arith)
      go transport_error e (err (service_error n)) f = absurd (ground arith)
      go (response code body) e x f =
          answered code body (λ i. (e i, after i)) x (ap read_reserved (sym e) ∙ f)
        where
          answered :
              (code : ℕ) (body : List Reserved)
              → post items before ≡ (response code body, s')
              → (x : Result ProductError (List Reserved)) → read_reserved (response code body) ≡ x
              → Means x s'
          answered code body p (ok a) f =
              let same : body ≡ a = ground arith in
              (before, code, p ∙ ap (λ b. (response code b, s')) same, ground arith)
          answered code body p (err unavailable) f = tt
          answered code body p (err (service_error n)) f =
              let same : code ≡ n = ground arith in
              (before, body, p ∙ ap (λ c. (response c body, s')) same, ground arith, ground arith)

  unwrapped :
      (r : Result (Failure ProductError) (List Reserved)) (s s' : S)
      → Decided setup is_unavailable (reserve_once post items) s r s'
      → Means (unwrap r) s'
  unfolding unwrap
  unwrapped (ok a) s s' (before, e) = reserve_once-Means before s' (ok a) e
  unwrapped (err (raised e)) s s' (before, h, _) = reserve_once-Means before s' (err e) h
  unwrapped (err (retries_exhausted c)) s s' d = tt
  unwrapped (err circuit_open) s s' d = tt
  unwrapped (err bulkhead_full) s s' d = tt

  -- With a positive budget of attempts `reserve` returns lines only where the Product service
  -- answered this very request with them, as the last thing that happened, below 400; it raises
  -- `ProductServiceError` only with the 4xx code that the service answered last. Every other end
  -- is `ProductServiceUnavailable`.
  pub reserve-Means :
      (b : Bulkhead) (c : Breaker) (s : S)
      → 0 < setup.policy.attempts
      → let (r, (b', (c', s'))) = reserve setup post items (b, (c, s)) in Means r s'
  unfolding reserve
  reserve-Means b c s h =
      let (same, decided, one) =
        protected_call-Decided setup is_unavailable (reserve_once post items) b c s h in
      unwrapped _ s _ decided
