-- ===== src/Reliability/Breaker/Observed.antt =====
-- Reading the state of a breaker.
use commerceops_ai_platform.Base.{ℕ, ◌≤◌, ◌≡◌, arith}
use commerceops_ai_platform.Reliability.Breaker.{Breaker, maybe_half_open, before_call, read_state}

-- A call after a reading of the state is admitted or refused as without it, and leaves the breaker
-- as it would have been.
pub before_call-read_state :
    (b : Breaker) (now later : ℕ)
    → now ≤ later
    → before_call (read_state b now).1 later ≡ before_call b later
unfolding before_call read_state maybe_half_open
before_call-read_state b now later h = ground arith
