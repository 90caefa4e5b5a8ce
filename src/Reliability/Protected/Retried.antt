-- ===== src/Reliability/Protected/Retried.antt =====
-- A call whose first attempt fails and whose second one succeeds.
use commerceops_ai_platform.Base.{
  ◌<◌, ◌≡◌, ap, ◌∙◌, Bool, true, lt→ltb, if◌then◌else◌, Result, ok, err,
}
use commerceops_ai_platform.Reliability.Failures.{circuit_open}
use commerceops_ai_platform.Reliability.Retry.{pause, retry_with_backoff}
use commerceops_ai_platform.Reliability.Retry.Second.{retry_with_backoff_second}
use commerceops_ai_platform.Reliability.Breaker
use commerceops_ai_platform.Reliability.Breaker.{Breaker, closed, on_success, settle}
use commerceops_ai_platform.Reliability.Bulkhead
use commerceops_ai_platform.Reliability.Bulkhead.{Bulkhead}
use commerceops_ai_platform.Reliability.Protected.{Setup, protected_call}
use commerceops_ai_platform.Reliability.Protected.Raised.{before_call_closed}

module _ {S E A : Type 0} (u : Setup S) (retry_on : E → Bool) (attempt : S → Result E A × S) where
  pub protected_call_second :
      (b : Bulkhead) (c : Breaker) (s s1 s2 : S) (e : E) (a : A)
      → 1 < u.policy.attempts
      → 0 < b.permits
      → c.state ≡ closed
      → attempt s ≡ (err e, s1)
      → retry_on e ≡ true
      → attempt (pause u.timing u.policy 1 s1) ≡ (ok a, s2)
      → protected_call u retry_on attempt (b, (c, s)) ≡ (ok a, (b, (on_success c, s2)))
  unfolding protected_call Breaker.call
  protected_call_second b c s s1 s2 e a more free shut first retried second =
      let retries = retry_with_backoff u.timing u.policy retry_on attempt in
      let through : Breaker.call u.clock retries (c, s) ≡ (ok a, (on_success c, s2)) =
        ap (λ o. if o.0 then settle u.clock o.1 (retries s) else (err circuit_open, (o.1, s)))
          (before_call_closed c (u.clock s) shut)
        ∙ ap (settle u.clock c) (
            retry_with_backoff_second u.timing u.policy retry_on attempt s s1 s2 e a more first
              retried second) in
      (Bulkhead.call_lem (Breaker.call u.clock retries) b (c, s)).1
      ∙ rw (lt→ltb 0 b.permits free) (ap (λ o. (o.0, (b, o.1))) through)
