-- ===== src/Reliability/Retry/Ladder.antt =====
-- The delay ladder against its closed form.
use native.Mathlib.Nat.{pow-zero, pow-suc, mul-one, mul_assoc, mul_comm}
use commerceops_ai_platform.Base.{
  ℕ, zero, suc, ◌+◌, ◌-◌, ◌*◌, ◌^◌, ◌≤◌, ◌<◌, min, ◌≡◌, refl, ◌∙◌, some, get_elem?, length, sum,
  arith,
}
use commerceops_ai_platform.Reliability.Retry.{ladder, backoff_delays}

pub length-ladder : (n d m x : ℕ) → length (ladder n d m x) ≡ n
unfolding ladder
length-ladder zero d m x = refl
length-ladder (suc n) d m x = omega (arith, length-ladder n (d * m) m x)

get_elem?-ladder : (n d m x i : ℕ) → i < n → get_elem? (ladder n d m x) i ≡ some (min (d * m ^ i) x)
unfolding ladder
get_elem?-ladder zero d m x i h = elim h [ ]
get_elem?-ladder (suc n) d m x zero h = simp (pow-zero, mul-one)
get_elem?-ladder (suc n) d m x (suc i) h =
    get_elem?-ladder n (d * m) m x i (omega arith) ∙ simp (pow-suc, mul_assoc, mul_comm m)

-- With at least two attempts there is one delay fewer than there are attempts, and delay `i` of
-- them is the base delay multiplied `i` times, capped at `max_delay`.
pub backoff_delays_closed :
    (attempts base multiplier max_delay i : ℕ)
    → i + 1 < attempts
    → (length (backoff_delays attempts base multiplier max_delay) ≡ attempts - 1)
      × (get_elem? (backoff_delays attempts base multiplier max_delay) i
          ≡ some (min (base * multiplier ^ i) max_delay))
unfolding backoff_delays
backoff_delays_closed attempts base multiplier max_delay i h = (
  length-ladder (attempts - 1) base multiplier max_delay,
  get_elem?-ladder (attempts - 1) base multiplier max_delay i (omega arith),
)

-- No ladder waits longer than the cap at every step.
pub sum-ladder-le : (n d m x : ℕ) → sum (ladder n d m x) ≤ n * x
unfolding ladder
sum-ladder-le zero d m x = omega arith
sum-ladder-le (suc n) d m x = omega (arith, sum-ladder-le n (d * m) m x)
