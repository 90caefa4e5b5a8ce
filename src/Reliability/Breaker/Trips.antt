-- ===== src/Reliability/Breaker/Trips.antt =====
-- When consecutive failures open the circuit.
use commerceops_ai_platform.Base.{
  ℕ, ◌+◌, ◌<◌, ◌≡◌, true, List, [], ◌∷◌, length, leb, if◌then◌else◌, arith,
}
use commerceops_ai_platform.Reliability.Breaker.{
  closed, open_, Breaker, before_call, on_success, on_failure,
}

-- One failed call after another, at these times.
pub fails : Breaker → List ℕ → Breaker
fails b [] = b
fails b (now ∷ times) = fails (on_failure b now) times

state-fails_open : (b : Breaker) (times : List ℕ) → b.state ≡ open_ → (fails b times).state ≡ open_
unfolding fails on_failure
state-fails_open b [] h = h
state-fails_open b (now ∷ times) h = state-fails_open (on_failure b now) times (ground arith)

-- A closed breaker below its threshold that goes through failed calls is open exactly when the
-- failures that it had counted and the new ones reach the threshold; it stays closed otherwise.
pub state-fails :
    (b : Breaker) (times : List ℕ)
    → b.state ≡ closed
    → b.consecutive_failures < b.failure_threshold
    → (fails b times).state
      ≡ (if leb b.failure_threshold (b.consecutive_failures + length times) then open_ else closed)
unfolding fails on_failure
state-fails b [] h f = ground arith
state-fails b (now ∷ times) h f =
    ground (arith, state-fails (on_failure b now) times, state-fails_open (on_failure b now) times)

-- A success forgets the failures before it: fewer than `failure_threshold` failures after it leave
-- the breaker closed, and the next call is admitted at any time.
pub success_forgets :
    (b : Breaker) (times : List ℕ) (now : ℕ)
    → length times < b.failure_threshold
    → ((fails (on_success b) times).state ≡ closed)
      × ((before_call (fails (on_success b) times) now).0 ≡ true)
unfolding on_success before_call
success_forgets b times now h = ground (arith, state-fails (on_success b) times)
