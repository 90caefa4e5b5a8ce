-- ===== src/Reliability/Breaker.antt =====
-- app/core/reliability.py, `CircuitBreaker`. Every method runs under the breaker's lock, so each is
-- one step on its state; the clock's reading is an argument. `call` is the whole method for a
-- caller that no other thread interrupts; `run` interleaves the steps of many.
pub mod Invariant
pub mod Trips
pub mod Trial
pub mod Observed
mod Tests
use commerceops_ai_platform.Base.{
  ℕ, ◌+◌, Bool, true, false, ◌&&◌, ◌||◌, not, leb, if◌then◌else◌, List, [], ◌∷◌, Result, ok, err,
}
use commerceops_ai_platform.Reliability.Failures.{Failure, circuit_open}

pub data State : Type 0 where
  closed open_ half_open : State

-- Times are whole milliseconds of the monotonic clock.
pub record Breaker : Type 0 where
  pub failure_threshold : ℕ
  pub recovery_seconds : ℕ
  pub state : State
  pub consecutive_failures : ℕ
  pub opened_at : ℕ
  pub half_open_in_flight : Bool

-- `__init__`
unfoldable pub init : ℕ → ℕ → Breaker
init failure_threshold recovery_seconds = record {
  failure_threshold = failure_threshold;
  recovery_seconds = recovery_seconds;
  state = closed;
  consecutive_failures = 0;
  opened_at = 0;
  half_open_in_flight = false;
}

abbrev pub is_open : State → Bool
is_open open_ = true
is_open _ = false

abbrev pub is_half_open : State → Bool
is_half_open half_open = true
is_half_open _ = false

-- The code tests `clock() - opened_at >= recovery_seconds` over signed numbers.
pub maybe_half_open : Breaker → ℕ → Breaker
maybe_half_open b now =
    if is_open b.state && leb (b.opened_at + b.recovery_seconds) now
    then record b { state = half_open; half_open_in_flight = false }
    else b

-- `false` stands for a raised `CircuitOpenError`.
unfoldable pub before_call : Breaker → ℕ → Bool × Breaker
unfolding maybe_half_open
before_call b now =
    let c = maybe_half_open b now in
    if is_open c.state
    then (false, c)
    else if is_half_open c.state
    then (if c.half_open_in_flight
        then (false, c)
        else (true, record c { half_open_in_flight = true }))
    else (true, c)

unfoldable pub on_success : Breaker → Breaker
on_success b = record b { state = closed; consecutive_failures = 0; half_open_in_flight = false }

-- The two branches of the source differ in the log line and in the state, which is `OPEN` already
-- in the second.
unfoldable pub on_failure : Breaker → ℕ → Breaker
on_failure b now =
    let c = record b {
      consecutive_failures = b.consecutive_failures + 1;
      half_open_in_flight = false;
    } in
    let should_open = is_half_open c.state || leb c.failure_threshold c.consecutive_failures in
    if should_open && not (is_open c.state)
    then record c { state = open_; opened_at = now }
    else if should_open
    then record c { opened_at = now }
    else c

pub reset : Breaker → Breaker
reset b = record b { state = closed; consecutive_failures = 0; half_open_in_flight = false }

-- The property `state`: it resolves an elapsed window before it answers.
unfoldable pub read_state : Breaker → ℕ → State × Breaker
unfolding maybe_half_open
read_state b now = let c = maybe_half_open b now in (c.state, c)

-- The end of `call`, the `except` and what follows it, on what `fn` gave.
abbrev pub settle :
    {S E A : Type 0}
    → (S → ℕ)
    → Breaker
    → Result (Failure E) A × S
    → Result (Failure E) A × (Breaker × S)
settle clock c (ok a, s) = (ok a, (on_success c, s))
settle clock c (err e, s) = (err e, (on_failure c (clock s), s))

-- `call`, on the breaker beside the state that `fn` changes; `clock` reads the time off that state.
unfoldable pub call :
    {S E A : Type 0}
    → (S → ℕ)
    → (S → Result (Failure E) A × S)
    → Breaker × S
    → Result (Failure E) A × (Breaker × S)
unfolding before_call on_success on_failure
call clock fn (b, s) =
    let (admitted, c) = before_call b (clock s) in
    if admitted then settle clock c (fn s) else (err circuit_open, (c, s))

-- The methods as steps, one for each way into the lock.
pub data Op : Type 0 where
  before : ℕ → Op
  success : Op
  failure : ℕ → Op
  reading : ℕ → Op
  resets : Op

unfoldable pub step : Breaker → Op → Breaker
unfolding before_call on_success on_failure read_state reset
step b (before now) = (before_call b now).1
step b success = on_success b
step b (failure now) = on_failure b now
step b (reading now) = (read_state b now).1
step b resets = reset b

unfoldable pub run : Breaker → List Op → Breaker
run b [] = b
run b (op ∷ ops) = run (step b op) ops
