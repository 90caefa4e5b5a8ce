-- ===== src/Reliability/Retry.antt =====
-- app/core/reliability.py, `backoff_delays`, `_jittered` and `retry_with_backoff`. Delays are whole
-- milliseconds and the multiplier is a whole number, as in the settings.
mod Cases
pub mod Ladder
pub mod Outcome
pub mod Second
pub mod Budget
pub mod Rule
mod Tests
use commerceops_ai_platform.Base.{
  ℕ, zero, suc, ◌+◌, ◌-◌, ◌*◌, min, Bool, Option, none, some, List, [], ◌∷◌, get_elem?, ◌==◌,
  if◌then◌else◌, Result, ok, err, Exec,
}
use commerceops_ai_platform.Reliability.Failures.{Failure, raised, retries_exhausted}

-- The `for` loop of `backoff_delays`: `n` rounds from the delay `delay`.
pub ladder : ℕ → ℕ → ℕ → ℕ → List ℕ
ladder zero delay multiplier max_delay = []
ladder (suc n) delay multiplier max_delay =
    min delay max_delay ∷ ladder n (delay * multiplier) multiplier max_delay

-- `range(max(0, attempts - 1))`: subtraction on ℕ stops at 0.
unfoldable pub backoff_delays : ℕ → ℕ → ℕ → ℕ → List ℕ
unfolding ladder
backoff_delays attempts base_delay multiplier max_delay =
    ladder (attempts - 1) base_delay multiplier max_delay

-- `random.uniform(0, delay)` and `sleep`, on the state that the call changes.
pub record Timing {ℓ} (S : Type ℓ) : Type ℓ where
  pub uniform : ℕ → S → ℕ × S
  pub sleep : ℕ → S → S

-- The keyword arguments of `retry_with_backoff`.
pub record Policy : Type 0 where
  pub attempts : ℕ
  pub base_delay : ℕ
  pub multiplier : ℕ
  pub max_delay : ℕ
  pub jitter : Bool

abbrev pub delays : Policy → List ℕ
delays p = backoff_delays p.attempts p.base_delay p.multiplier p.max_delay

-- `delays[attempt - 1]`; `retry_with_backoff` never reads past the end, where this gives 0.
pub delay_at : List ℕ → ℕ → ℕ
delay_at ds attempt = elim (get_elem? ds (attempt - 1)) [ none ↦ 0 | some d ↦ d ]

module _ {ℓ} {S : Type ℓ} (t : Timing S) where
  jittered : ℕ → S → ℕ × S
  jittered delay s = t.uniform delay s

  -- What one failed attempt that is not the last does before the next: draw and sleep.
  unfoldable pub pause : Policy → ℕ → S → S
  unfolding jittered delay_at
  pause p attempt s =
      let delay = delay_at (delays p) attempt in
      if p.jitter then (let (d, s') = jittered delay s in t.sleep d s') else t.sleep delay s

module _ {ℓ} {S E A : Type ℓ} (t : Timing S) (p : Policy) (retry_on : E → Bool) where
  -- The `for attempt in range(attempt, attempts + 1)` loop with `n` rounds left.
  pub retry_loop : ℕ → ℕ → Option E → Exec S E A → S → Result (Failure E) A × S
  retry_loop zero attempt last_error fn s = (err (retries_exhausted last_error), s)
  retry_loop (suc n) attempt last_error fn s =
      let (r, s') = fn s in
      elim r [
        | ok a ↦ (ok a, s')
        | err e ↦
            (let rest = retry_loop n (attempt + 1) (some e) fn (pause t p attempt s') in
              if retry_on e
              then (if attempt == p.attempts then (err (retries_exhausted (some e)), s') else rest)
              else (err (raised e), s'))
      ]

  unfoldable pub retry_with_backoff : Exec S E A → S → Result (Failure E) A × S
  unfolding retry_loop pause
  retry_with_backoff fn s = retry_loop p.attempts 1 none fn s
