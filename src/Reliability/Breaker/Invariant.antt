-- ===== src/Reliability/Breaker/Invariant.antt =====
-- The well-formed breakers, under any interleaving of the methods by any number of threads.
use commerceops_ai_platform.Base.{ℕ, ◌<◌, ◌≡◌, refl, Bool, false, List, [], ◌∷◌, arith}
use commerceops_ai_platform.Reliability.Breaker.{
  State, closed, open_, half_open, Breaker, init, Op, before, success, failure, reading, resets,
  step, run,
}

-- A closed breaker is below its threshold, and a trial is in flight only while half-open.
abbrev pub Fits : State → (failures threshold : ℕ) → (in_flight : Bool) → Type 0
Fits closed f t b = (f < t) × (b ≡ false)
Fits open_ f t b = (0 < f) × (b ≡ false)
Fits half_open f t b = 0 < f

pub record IsValid (b : Breaker) : Type 0 where
  pub positive : 0 < b.failure_threshold
  pub fits : Fits b.state b.consecutive_failures b.failure_threshold b.half_open_in_flight

pub init-IsValid : (threshold recovery : ℕ) → 0 < threshold → IsValid (init threshold recovery)
unfolding init
init-IsValid t r h = record { positive = h; fits = (h, refl) }

pub step-IsValid : (b : Breaker) (op : Op) → IsValid b → IsValid (step b op)
unfolding step
step-IsValid b (before now) v = ground arith
step-IsValid b success v = ground arith
step-IsValid b (failure now) v = ground arith
step-IsValid b (reading now) v = ground arith
step-IsValid b resets v = ground arith

run-IsValid : (b : Breaker) (ops : List Op) → IsValid b → IsValid (run b ops)
unfolding run
run-IsValid b [] v = v
run-IsValid b (op ∷ ops) v = run-IsValid (step b op) ops (step-IsValid b op v)

-- After any interleaving of calls, outcomes, readings and resets, a breaker that was made with a
-- positive threshold is closed only with fewer consecutive failures than the threshold, has counted
-- a failure where it is not closed, and marks a trial as in flight only while it is half-open.
pub run-init-IsValid :
    (threshold recovery : ℕ) (ops : List Op)
    → 0 < threshold
    → IsValid (run (init threshold recovery) ops)
run-init-IsValid t r ops h = run-IsValid (init t r) ops (init-IsValid t r h)
