-- ===== src/Reliability/Breaker/Tests.antt =====
-- Concrete runs of the circuit breaker.
use commerceops_ai_platform.Base.{◌+◌, ◌≡◌, refl, List, [], ◌∷◌, if◌then◌else◌, arith}
use commerceops_ai_platform.Reliability.Breaker.{
  open_, half_open, Breaker, init, Op, before, success, failure, run, step,
}
use commerceops_ai_platform.Reliability.Breaker.Invariant.{IsValid, run-init-IsValid}
use commerceops_ai_platform.Reliability.Breaker.Trial.{admissions, any_from, admissions_open}

-- Open since 1000, with a window of 500.
abbrev tripped : Breaker
tripped = record (init 2 500) { state = open_; consecutive_failures = 2; opened_at = 1000 }

abbrev story : List Op
story = before 0 ∷ failure 10 ∷ before 20 ∷ failure 30 ∷ before 600 ∷ success ∷ []

trips_test : (run (init 2 500) (failure 10 ∷ failure 30 ∷ [])).state ≡ open_
unfolding run init step
trips_test = refl

trial_test : (run (init 2 500) (failure 10 ∷ failure 30 ∷ before 530 ∷ [])).state ≡ half_open
unfolding run init step
trial_test = refl

run-init-IsValid_example : IsValid (run (init 2 500) story)
run-init-IsValid_example = run-init-IsValid 2 500 story (omega arith)

admissions_open_example :
    admissions tripped (1200 ∷ 1500 ∷ 1600 ∷ [])
    ≡ (if any_from (1000 + (init 2 500).recovery_seconds) (1200 ∷ 1500 ∷ 1600 ∷ []) then 1 else 0)
admissions_open_example = admissions_open tripped (1200 ∷ 1500 ∷ 1600 ∷ []) refl
