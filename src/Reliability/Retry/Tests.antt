-- ===== src/Reliability/Retry/Tests.antt =====
-- Concrete runs of `retry_with_backoff`.
use commerceops_ai_platform.Base.{
  ℕ, ◌+◌, ◌≤◌, ◌≡◌, refl, Bool, true, false, [], ◌∷◌, sum, ltb, if◌then◌else◌, ok, err, Exec, arith,
}
use commerceops_ai_platform.Reliability.Retry.{
  Timing, Policy, delays, backoff_delays, retry_with_backoff,
}
use commerceops_ai_platform.Reliability.Retry.Budget.{IsMetered, retry_with_backoff_budget}

-- The calls made and the milliseconds slept; the full delay is drawn.
abbrev Meter : Type 0
Meter = ℕ × ℕ

abbrev timing : Timing Meter
timing = record { uniform = λ d s. (d, s); sleep = λ d s. (s.0, s.1 + d) }

abbrev policy : Policy
policy = record { attempts = 4; base_delay = 100; multiplier = 2; max_delay = 300; jitter = true }

-- Fails at its first two calls.
abbrev flaky : Exec Meter ℕ ℕ
flaky s = (if ltb s.0 2 then err 503 else ok 7, (s.0 + 1, s.1))

abbrev always : ℕ → Bool
always e = true

abbrev never : ℕ → Bool
never e = false

delays_test : delays policy ≡ 100 ∷ 200 ∷ 300 ∷ []
unfolding backoff_delays
delays_test = refl

flaky_test : retry_with_backoff timing policy always flaky (0, 0) ≡ (ok 7, (3, 300))
unfolding retry_with_backoff backoff_delays
flaky_test = refl

metered : IsMetered timing flaky (λ s. s.0) (λ s. s.1)
metered = record {
  uniform-le = λ d s. omega arith;
  calls-uniform = λ d s. refl;
  slept-uniform = λ d s. refl;
  calls-sleep = λ d s. refl;
  slept-sleep = λ d s. refl;
  calls-fn = λ s. refl;
  slept-fn = λ s. refl;
}

retry_with_backoff_budget_example :
    ((retry_with_backoff timing policy always flaky (0, 0)).1.0 ≤ 0 + 4)
    × ((retry_with_backoff timing policy always flaky (0, 0)).1.1 ≤ 0 + sum (delays policy))
retry_with_backoff_budget_example =
    retry_with_backoff_budget timing policy always flaky (λ s. s.0) (λ s. s.1) metered (0, 0)
      (omega arith)
