-- ===== src/Payment/Gateway/Answers.antt =====
-- What each outcome of `charge` says of the gateway.
use commerceops_ai_platform.Base.{
  ℕ, ◌<◌, ◌≤◌, ◌≡◌, ◌≢◌, refl, sym, ap, ◌∙◌, ◌⊎◌, inl, inr, Result, ok, err, arith,
}
use commerceops_ai_platform.Reliability.{Failure}
use commerceops_ai_platform.Reliability.Failures
use commerceops_ai_platform.Reliability.Bulkhead.{Bulkhead}
use commerceops_ai_platform.Reliability.Breaker.{Breaker}
use commerceops_ai_platform.Reliability.Protected.{Setup}
use commerceops_ai_platform.Reliability.Protected.Layers.{Decided, protected_call-Decided}
use commerceops_ai_platform.Payment.Data.{
  Status, success, failed, unknown, GatewayOutcome, GatewayError, gateway_unavailable,
  gateway_declined, ChargeBody, Reply, timed_out, transport_error, response, order_key,
}
use commerceops_ai_platform.Payment.Gateway.{
  Post, is_unavailable, post_charge, read_reply, outcome_of, charge,
}

module _ {S : Type 0} (setup : Setup S) (post : Post S) (order_id amount : ℕ) where
  -- The gateway answered a request for this order, under the key of this order, with this code and
  -- body, and `s'` is the state after it.
  pub record Answered (s' : S) (code : ℕ) (body : ChargeBody) : Type 0 where
    pub before : S
    pub answer : post order_id amount (order_key order_id) before ≡ (response code body, s')

  -- What the status of an outcome stands for.
  abbrev pub Means : Status → S → Type 0
  Means success s' =
      (code : ℕ) × (body : ChargeBody) × Answered s' code body
      × (code < 400)
      × (body.status ≡ success)
  Means failed s' =
      (code : ℕ) × (body : ChargeBody) × Answered s' code body
      × (code < 500)
      × ((400 ≤ code) ⊎ (body.status ≢ success))
  Means unknown s' = Unit

  -- An answer that `_post_charge` reads as an outcome.
  accepted :
      (s' : S) (code : ℕ) (body : ChargeBody) (o : GatewayOutcome)
      → Answered s' code body
      → read_reply (response code body) ≡ ok o
      → Means o.status s'
  unfolding read_reply
  accepted s' code body o a h = go o.status refl
    where
      go : (st : Status) → o.status ≡ st → Means st s'
      go success e = (code, body, a, ground arith, ground arith)
      go failed e = (code, body, a, ground arith, inr (λ x. ground arith))
      go unknown e = tt

  -- An answer that it reads as a refusal.
  declined_with :
      (s' : S) (code n : ℕ) (body : ChargeBody)
      → Answered s' code body
      → read_reply (response code body) ≡ err (gateway_declined n)
      → Means failed s'
  unfolding read_reply
  declined_with s' code n body a h = (code, body, a, ground arith, inl (ground arith))

  -- What one attempt that was answered gave.
  post_charge_cases :
      (s s' : S) (x : Result GatewayError GatewayOutcome)
      → post_charge post order_id amount (order_key order_id) s ≡ (x, s')
      → x ≢ err gateway_unavailable
      → (code : ℕ) × (body : ChargeBody) × Answered s' code body
        × (read_reply (response code body) ≡ x)
  unfolding post_charge read_reply
  post_charge_cases s s' x h other = go (post order_id amount (order_key order_id) s).0 refl
    where
      after : (post order_id amount (order_key order_id) s).1 ≡ s'
      after = ap (λ o. o.1) h

      go :
          (reply : Reply ChargeBody)
          → (post order_id amount (order_key order_id) s).0 ≡ reply
          → (code : ℕ) × (body : ChargeBody) × Answered s' code body
            × (read_reply (response code body) ≡ x)
      go timed_out e = absurd (other (sym (ap (λ o. o.0) h) ∙ ap read_reply e))
      go transport_error e = absurd (other (sym (ap (λ o. o.0) h) ∙ ap read_reply e))
      go (response code body) e = (
        code,
        body,
        record { before = s; answer = λ i. (e i, after i) },
        sym (ap read_reply e) ∙ ap (λ o. o.0) h,
      )

  by_attempt :
      (r : Result (Failure GatewayError) GatewayOutcome) (s s' : S)
      → Decided setup is_unavailable (post_charge post order_id amount (order_key order_id)) s r s'
      → Means (outcome_of r).status s'
  unfolding outcome_of
  by_attempt (ok o) s s' (before, e) =
      let (code, body, a, x) = post_charge_cases before s' (ok o) e (λ y. ground arith) in
      accepted s' code body o a x
  by_attempt (err (Failures.raised (gateway_declined n))) s s' (before, e, _) =
      let (code, body, a, x) =
        post_charge_cases before s' (err (gateway_declined n)) e (λ y. ground arith) in
      declined_with s' code n body a x
  by_attempt (err (Failures.raised gateway_unavailable)) s s' d = tt
  by_attempt (err (Failures.retries_exhausted c)) s s' d = tt
  by_attempt (err Failures.circuit_open) s s' d = tt
  by_attempt (err Failures.bulkhead_full) s s' d = tt

  -- With a positive budget of attempts `charge` reports SUCCESS or FAILED only where the gateway
  -- answered, as the last thing that happened, a request for this order under the order's own key:
  -- SUCCESS for an answer below 400 that says so, FAILED for one below 500 that is an error or
  -- says otherwise.
  pub charge-Means :
      (b : Bulkhead) (c : Breaker) (s : S)
      → 0 < setup.policy.attempts
      → let (o, (b', (c', s'))) = charge setup post order_id amount (b, (c, s)) in Means o.status s'
  unfolding charge
  charge-Means b c s h =
      let (same, decided, one) =
        protected_call-Decided setup is_unavailable
          (post_charge post order_id amount (order_key order_id)) b c s h in
      by_attempt _ s _ decided
