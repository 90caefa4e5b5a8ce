-- ===== src/Reliability/Failures.antt =====
-- app/core/reliability.py, the exceptions. A call through the primitives ends in the dependency's
-- own exception or in one that the module raises itself.
use commerceops_ai_platform.Base.{Option}

-- `raised e` is an exception of the dependency that goes through untouched; the others are the
-- subclasses of `ReliabilityError`. `retries_exhausted` carries its `__cause__`, which is `None`
-- only for a budget of no attempts.
pub data Failure {ℓ} (E : Type ℓ) : Type ℓ where
  raised : E → Failure E
  retries_exhausted : Option E → Failure E
  circuit_open : Failure E
  bulkhead_full : Failure E
