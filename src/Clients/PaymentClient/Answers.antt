-- ===== src/Clients/PaymentClient/Answers.antt =====
-- What a result of `charge` says of the Payment service.
use commerceops_ai_platform.Base.{
  ℕ, ◌<◌, ◌≡◌, refl, sym, ap, ◌∙◌, ◌⊎◌, inl, inr, Result, ok, err, arith,
}
use commerceops_ai_platform.Reliability.{Failure}
use commerceops_ai_platform.Reliability.Failures
use commerceops_ai_platform.Reliability.Bulkhead.{Bulkhead}
use commerceops_ai_platform.Reliability.Breaker.{Breaker}
use commerceops_ai_platform.Reliability.Protected.{Setup}
use commerceops_ai_platform.Reliability.Protected.Layers.{Decided, protected_call-Decided}
use commerceops_ai_platform.Payment.{
  unknown, Reply, timed_out, transport_error, response, PaymentRequest, PaymentResult,
}
use commerceops_ai_platform.Clients.PaymentClient.{
  Post, PaymentError, payment_unavailable, read_payment, charge_once, is_unavailable, result_of,
  charge,
}

module _ {S : Type 0} (setup : Setup S) (post : Post S) (payload : PaymentRequest) where
  -- The result is the body of an answer below 400 to this very request, which led to `s'`.
  pub record Confirmed (result : PaymentResult) (s' : S) : Type 0 where
    pub before : S
    pub code : ℕ
    pub answer : post payload before ≡ (response code result, s')
    pub accepted : code < 400

  -- The result claims nothing.
  pub record Unconfirmed (result : PaymentResult) : Type 0 where
    pub order : result.order_id ≡ payload.order_id
    pub amount : result.amount ≡ payload.amount
    pub status : result.status ≡ unknown

  charge_once-Confirmed :
      (before s' : S) (result : PaymentResult)
      → charge_once post payload before ≡ (ok result, s')
      → Confirmed result s'
  unfolding charge_once read_payment
  charge_once-Confirmed before s' result h = go (post payload before).0 refl
    where
      after : (post payload before).1 ≡ s'
      after = ap (λ o. o.1) h

      go : (reply : Reply PaymentResult) → (post payload before).0 ≡ reply → Confirmed result s'
      go timed_out e = absurd (ground (arith, sym (ap read_payment e) ∙ ap (λ o. o.0) h))
      go transport_error e = absurd (ground (arith, sym (ap read_payment e) ∙ ap (λ o. o.0) h))
      go (response code body) e =
          let f = sym (ap read_payment e) ∙ ap (λ o. o.0) h in
          let same : body ≡ result = ground (arith, f) in
          record {
            before = before;
            code = code;
            answer = (λ i. (e i, after i)) ∙ ap (λ b. (response code b, s')) same;
            accepted = ground (arith, f);
          }

  told :
      (r : Result (Failure PaymentError) PaymentResult) (s s' : S)
      → Decided setup is_unavailable (charge_once post payload) s r s'
      → Confirmed (result_of payload r) s' ⊎ Unconfirmed (result_of payload r)
  unfolding result_of
  told (ok result) s s' (before, e) = inl (charge_once-Confirmed before s' result e)
  told (err (Failures.raised payment_unavailable)) s s' d =
      inr (record { order = refl; amount = refl; status = refl })
  told (err (Failures.retries_exhausted c)) s s' d =
      inr (record { order = refl; amount = refl; status = refl })
  told (err Failures.circuit_open) s s' d =
      inr (record { order = refl; amount = refl; status = refl })
  told (err Failures.bulkhead_full) s s' d =
      inr (record { order = refl; amount = refl; status = refl })

  -- With a positive budget of attempts the result of `charge` is the body that the Payment service
  -- gave, as the last thing that happened, with an answer below 400 to this very request, or an
  -- UNKNOWN result for this order and this amount.
  pub charge-Confirmed :
      (b : Bulkhead) (c : Breaker) (s : S)
      → 0 < setup.policy.attempts
      → let (result, (b', (c', s'))) = charge setup post payload (b, (c, s)) in
        Confirmed result s' ⊎ Unconfirmed result
  unfolding charge
  charge-Confirmed b c s h =
      let (same, decided, one) =
        protected_call-Decided setup is_unavailable (charge_once post payload) b c s h in
      told _ s _ decided
