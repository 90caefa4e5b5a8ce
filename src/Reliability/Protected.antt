-- ===== src/Reliability/Protected.antt =====
-- The composition that app/payment/gateway_client.py, app/clients/payment_client.py and
-- app/clients/product_client.py share: bulkhead, then circuit breaker, then retry, then one attempt.
pub mod Layers
pub mod Raised
pub mod Retried
pub mod Rule
mod Tests
use commerceops_ai_platform.Base.{ℕ, Bool, Result}
use commerceops_ai_platform.Reliability.Failures.{Failure}
use commerceops_ai_platform.Reliability.Retry.{Timing, Policy, retry_with_backoff}
use commerceops_ai_platform.Reliability.Breaker
use commerceops_ai_platform.Reliability.Breaker.{Breaker}
use commerceops_ai_platform.Reliability.Bulkhead
use commerceops_ai_platform.Reliability.Bulkhead.{Bulkhead}

-- A module's bulkhead and breaker, beside the state outside.
abbrev pub Guarded : Type 0 → Type 0
Guarded S = Bulkhead × (Breaker × S)

-- What the settings and the modules of Python give to the composition.
pub record Setup (S : Type 0) : Type 0 where
  pub timing : Timing S
  pub clock : S → ℕ
  pub policy : Policy

-- `bulkhead.call(lambda: breaker.call(_with_retries))`
unfoldable pub protected_call :
    {S E A : Type 0}
    → Setup S
    → (E → Bool)
    → (S → Result E A × S)
    → Guarded S
    → Result (Failure E) A × Guarded S
protected_call u retry_on attempt =
    Bulkhead.call (Breaker.call u.clock (retry_with_backoff u.timing u.policy retry_on attempt))
