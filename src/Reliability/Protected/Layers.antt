-- ===== src/Reliability/Protected/Layers.antt =====
-- What the composed layers do, whatever the attempt does.
use commerceops_ai_platform.Base.{
  ℕ, ◌+◌, ◌≤◌, ◌<◌, ◌≡◌, refl, inl, inr, Bool, Bool-cases, ltb, Result, ok, err, arith,
}
use commerceops_ai_platform.Reliability.Failures.{
  Failure, raised, retries_exhausted, circuit_open, bulkhead_full,
}
use commerceops_ai_platform.Reliability.Retry.{retry_with_backoff}
use commerceops_ai_platform.Reliability.Retry.Outcome.{Outcome, retry_with_backoff-Outcome}
use commerceops_ai_platform.Reliability.Breaker
use commerceops_ai_platform.Reliability.Breaker.{
  Breaker, before_call, settle, on_success, on_failure,
}
use commerceops_ai_platform.Reliability.Bulkhead
use commerceops_ai_platform.Reliability.Bulkhead.{Bulkhead}
use commerceops_ai_platform.Reliability.Protected.{Setup, protected_call}

module _ {S E A : Type 0} (u : Setup S) (retry_on : E → Bool) (attempt : S → Result E A × S) where
  -- The result and the state outside, by the layer that decided.
  abbrev pub Decided : S → Result (Failure E) A → S → Type 0
  Decided s (err circuit_open) s' = s' ≡ s
  Decided s (err bulkhead_full) s' = s' ≡ s
  Decided s r s' = Outcome retry_on attempt r s'

  Decided-of_Outcome :
      (s : S) (r : Result (Failure E) A) (s' : S) → Outcome retry_on attempt r s' → Decided s r s'
  Decided-of_Outcome s (ok a) s' h = h
  Decided-of_Outcome s (err (raised e)) s' h = h
  Decided-of_Outcome s (err (retries_exhausted c)) s' h = h
  Decided-of_Outcome s (err circuit_open) s' h = absurd h
  Decided-of_Outcome s (err bulkhead_full) s' h = absurd h

  abbrev OneFailure : Breaker → Breaker → Type 0
  OneFailure c c' = c'.consecutive_failures ≤ c.consecutive_failures + 1

  settle-Decided :
      (c c' : Breaker) (s : S) (out : Result (Failure E) A × S)
      → c'.consecutive_failures ≡ c.consecutive_failures
      → Outcome retry_on attempt out.0 out.1
      → let (r, (d, s')) = settle u.clock c' out in Decided s r s' × OneFailure c d
  unfolding on_success on_failure
  settle-Decided c c' s (ok a, s') same h = (h, omega arith)
  settle-Decided c c' s (err e, s') same h = (Decided-of_Outcome s (err e) s' h, ground arith)

  consecutive_failures-before_call :
      (c : Breaker) (now : ℕ) → (before_call c now).1.consecutive_failures ≡ c.consecutive_failures
  unfolding before_call
  consecutive_failures-before_call c now = ground arith

  breaker-Decided :
      (c : Breaker) (s : S)
      → 0 < u.policy.attempts
      → let (r, (d, s')) =
          Breaker.call u.clock (retry_with_backoff u.timing u.policy retry_on attempt) (c, s) in
        Decided s r s' × OneFailure c d
  unfolding Breaker.call
  breaker-Decided c s h = elim (Bool-cases (before_call c (u.clock s)).0) [
    | inl admitted ↦ rw admitted (
        settle-Decided c (before_call c (u.clock s)).1 s
          (retry_with_backoff u.timing u.policy retry_on attempt s)
          (consecutive_failures-before_call c (u.clock s))
          (retry_with_backoff-Outcome u.timing u.policy retry_on attempt s h))
    | inr refused ↦ rw refused (refl, omega (arith, consecutive_failures-before_call c (u.clock s)))
  ]

  -- With a positive budget of attempts, a call through all the layers ends in one of these ways. A
  -- layer refused it (`circuit_open`, `bulkhead_full`) and nothing outside changed; or its result is
  -- that of one attempt, as `Outcome` says. However it ends the bulkhead is as before, and the
  -- breaker has counted at most one failure more, however many attempts failed.
  pub protected_call-Decided :
      (b : Bulkhead) (c : Breaker) (s : S)
      → 0 < u.policy.attempts
      → let (r, (b', (c', s'))) = protected_call u retry_on attempt (b, (c, s)) in
        (b' ≡ b) × Decided s r s' × (c'.consecutive_failures ≤ c.consecutive_failures + 1)
  unfolding protected_call
  protected_call-Decided b c s h =
      let inner = Breaker.call u.clock (retry_with_backoff u.timing u.policy retry_on attempt) in
      elim (Bool-cases (ltb 0 b.permits)) [
        | inl free ↦
            let (decided, one) = breaker-Decided c s h in
            rw (Bulkhead.call_lem inner b (c, s)).1 (rw free (refl, decided, one))
        | inr full ↦ rw (Bulkhead.call_lem inner b (c, s)).1 (rw full (refl, refl, omega arith))
      ]
