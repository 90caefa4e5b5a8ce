-- ===== src/Reliability/Breaker/Trial.antt =====
-- The recovery window and the one trial call of a half-open circuit, among calls of many threads.
use commerceops_ai_platform.Base.{
  ℕ, ◌+◌, ◌≡◌, refl, Bool, true, false, ◌||◌, List, [], ◌∷◌, leb, if◌then◌else◌, arith,
}
use commerceops_ai_platform.Reliability.Breaker.{open_, half_open, Breaker, before_call}

-- How many of the calls that begin at these times are admitted, none of them having ended yet.
pub admissions : Breaker → List ℕ → ℕ
admissions b [] = 0
admissions b (now ∷ times) =
    let (admitted, c) = before_call b now in (if admitted then 1 else 0) + admissions c times

-- Some time has reached the deadline.
pub any_from : ℕ → List ℕ → Bool
any_from deadline [] = false
any_from deadline (now ∷ times) = leb deadline now || any_from deadline times

admissions_in_flight :
    (b : Breaker) (times : List ℕ)
    → b.state ≡ half_open
    → b.half_open_in_flight ≡ true
    → admissions b times ≡ 0
unfolding admissions before_call
admissions_in_flight b [] h f = refl
admissions_in_flight b (now ∷ times) h f = ground (arith, admissions_in_flight b times h f)

-- While the circuit is open, of the calls of any threads at any times none is admitted before
-- `recovery_seconds` have passed, and exactly one, the trial, once they have.
pub admissions_open :
    (b : Breaker) (times : List ℕ)
    → b.state ≡ open_
    → admissions b times ≡ (if any_from (b.opened_at + b.recovery_seconds) times then 1 else 0)
unfolding admissions any_from before_call
admissions_open b [] h = refl
admissions_open b (now ∷ times) h =
    ground (arith, admissions_open b times h, admissions_in_flight (before_call b now).1 times)
