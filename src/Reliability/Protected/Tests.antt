-- ===== src/Reliability/Protected/Tests.antt =====
-- A call through the three layers.
use commerceops_ai_platform.Base.{
  ℕ, ◌+◌, ◌≤◌, ◌≡◌, refl, Bool, true, false, Result, err, leb, arith,
}
use commerceops_ai_platform.Reliability.Failures.{Failure}
use commerceops_ai_platform.Reliability.Breaker
use commerceops_ai_platform.Reliability.Breaker.{Breaker}
use commerceops_ai_platform.Reliability.Bulkhead
use commerceops_ai_platform.Reliability.Bulkhead.{Bulkhead}
use commerceops_ai_platform.Reliability.Protected.{Guarded, Setup, protected_call}
use commerceops_ai_platform.Reliability.Protected.Layers.{Decided, protected_call-Decided}
use commerceops_ai_platform.Reliability.Protected.Raised.{Opened, attempts, refusals_open}

-- The state is the clock; a call takes 5 ms.
abbrev setup : Setup ℕ
setup = record {
  timing = record { uniform = λ d s. (d, s); sleep = λ d s. s + d };
  clock = λ s. s;
  policy = record {
    attempts = 3;
    base_delay = 100;
    multiplier = 2;
    max_delay = 300;
    jitter = true;
  };
}

abbrev refused : ℕ → Result ℕ ℕ × ℕ
refused s = (err 404, s + 5)

abbrev is_unavailable : ℕ → Bool
is_unavailable e = false

abbrev bulkhead : Bulkhead
bulkhead = Bulkhead.init 2

abbrev breaker : Breaker
breaker = Breaker.init 5 1000

abbrev ended : Result (Failure ℕ) ℕ × Guarded ℕ
ended = protected_call setup is_unavailable refused (bulkhead, (breaker, 0))

protected_call-Decided_example :
    (ended.1.0 ≡ bulkhead)
    × Decided setup is_unavailable refused 0 ended.0 ended.1.1.1
    × (ended.1.1.0.consecutive_failures ≤ breaker.consecutive_failures + 1)
protected_call-Decided_example =
    protected_call-Decided setup is_unavailable refused bulkhead breaker 0 (omega arith)

-- Five refusals reach the threshold.
refusals_open_example :
    Opened setup is_unavailable refused 5
      (attempts setup is_unavailable refused 5 0)
      (leb 5 5)
      bulkhead
      (bulkhead, (breaker, 0))
unfolding Bulkhead.init Breaker.init
refusals_open_example =
    refusals_open setup is_unavailable refused 5 bulkhead breaker 0 (omega arith) (omega arith)
      (λ s. (404, (refl, refl))) refl (omega arith) (omega arith)
