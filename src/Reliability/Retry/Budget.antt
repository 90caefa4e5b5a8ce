-- ===== src/Reliability/Retry/Budget.antt =====
-- How often `retry_with_backoff` calls the function, and how long it sleeps in all.
use commerceops_ai_platform.Base.{
  ℕ, zero, suc, ◌+◌, ◌-◌, ◌≤◌, ◌<◌, ◌≡◌, refl, sym, ap, subst, Bool, Option, none, some, List, [],
  ◌∷◌, length, sum, arith, Result, Exec,
}
use commerceops_ai_platform.Reliability.Failures.{Failure}
use commerceops_ai_platform.Reliability.Retry.{
  Timing, Policy, delays, delay_at, backoff_delays, jittered, pause, retry_loop, retry_with_backoff,
}
use commerceops_ai_platform.Reliability.Retry.Ladder.{length-ladder}
use commerceops_ai_platform.Reliability.Retry.Cases.{retry_cases}

-- The sum of `n` delays from the one of attempt `attempt` on.
spent : List ℕ → ℕ → ℕ → ℕ
spent ds zero attempt = 0
spent ds (suc n) attempt = delay_at ds attempt + spent ds n (suc attempt)

delay_at-cons :
    (d : ℕ) (ds : List ℕ) (k : ℕ) → delay_at (d ∷ ds) (suc (suc k)) ≡ delay_at ds (suc k)
unfolding delay_at
delay_at-cons d ds k =
    let e : suc (suc k) - 1 ≡ suc k = omega arith in
    let e' : suc k - 1 ≡ k = omega arith in rw (e, delay_at) (rw (e', delay_at))

spent-cons : (d : ℕ) (ds : List ℕ) (n k : ℕ) → spent (d ∷ ds) n (suc (suc k)) ≡ spent ds n (suc k)
unfolding spent
spent-cons d ds zero k = refl
spent-cons d ds (suc n) k = omega (arith, delay_at-cons d ds k, spent-cons d ds n (suc k))

spent-eq-sum : (ds : List ℕ) → spent ds (length ds) 1 ≡ sum ds
unfolding spent delay_at
spent-eq-sum [] = refl
spent-eq-sum (d ∷ ds) = omega (arith, spent-cons d ds (length ds) 0, spent-eq-sum ds)

-- What is documented of the clock and the random source, and what is measured on the state: the
-- calls of `fn` made so far and the time slept so far.
pub record IsMetered {S E A : Type 0} (t : Timing S) (fn : Exec S E A) (calls slept : S → ℕ)
    : Type 0 where
  pub uniform-le : (d : ℕ) (s : S) → (t.uniform d s).0 ≤ d
  pub calls-uniform : (d : ℕ) (s : S) → calls (t.uniform d s).1 ≡ calls s
  pub slept-uniform : (d : ℕ) (s : S) → slept (t.uniform d s).1 ≡ slept s
  pub calls-sleep : (d : ℕ) (s : S) → calls (t.sleep d s) ≡ calls s
  pub slept-sleep : (d : ℕ) (s : S) → slept (t.sleep d s) ≡ slept s + d
  pub calls-fn : (s : S) → calls (fn s).1 ≡ calls s + 1
  pub slept-fn : (s : S) → slept (fn s).1 ≡ slept s

module _ {S E A : Type 0} (t : Timing S) (p : Policy) (retry_on : E → Bool) (fn : Exec S E A)
    (calls slept : S → ℕ) (m : IsMetered t fn calls slept) where
  calls-pause : (k : ℕ) (s : S) → calls (pause t p k s) ≡ calls s
  unfolding pause jittered
  calls-pause k s =
      let d = delay_at (delays p) k in
      ground (
        arith,
        m.calls-sleep d s,
        m.calls-sleep (t.uniform d s).0 (t.uniform d s).1,
        m.calls-uniform d s,
      )

  slept-pause : (k : ℕ) (s : S) → slept (pause t p k s) ≤ slept s + delay_at (delays p) k
  unfolding pause jittered
  slept-pause k s =
      let d = delay_at (delays p) k in
      ground (
        arith,
        m.slept-sleep d s,
        m.slept-sleep (t.uniform d s).0 (t.uniform d s).1,
        m.slept-uniform d s,
        m.uniform-le d s,
      )

  abbrev Within : ℕ → ℕ → S → Result (Failure E) A × S → Type 0
  Within n k s out =
      (calls out.1 ≤ calls s + suc n) × (slept out.1 ≤ slept s + spent (delays p) n k)

  after_fn : (s s' : S) → (fn s).1 ≡ s' → (calls s' ≡ calls s + 1) × (slept s' ≡ slept s)
  after_fn s s' e =
      subst (λ x. (calls x ≡ calls s + 1) × (slept x ≡ slept s)) e (m.calls-fn s, m.slept-fn s)

  -- An attempt that ends the loop.
  stops :
      (n k : ℕ) (s s' : S)
      → (fn s).1 ≡ s'
      → (calls s' ≤ calls s + suc n) × (slept s' ≤ slept s + spent (delays p) n k)
  stops n k s s' e = let h = after_fn s s' e in (omega arith, omega arith)

  -- An attempt that is followed by a pause and the rest of the loop.
  goes_on :
      (n k : ℕ) (s s' : S) (out : Result (Failure E) A × S)
      → (fn s).1 ≡ s'
      → Within n (k + 1) (pause t p k s') out
      → Within (suc n) k s out
  unfolding spent
  goes_on n k s s' out e w =
      let next : k + 1 ≡ suc k = omega arith in
      let same = ap (spent (delays p) n) next in
      let h = after_fn s s' e in
      let c = calls-pause k s' in let z = slept-pause k s' in (omega arith, omega arith)

  retry_loop-Within :
      (n k : ℕ) (last : Option E) (s : S)
      → k + n ≡ p.attempts
      → Within n k s (retry_loop t p retry_on (suc n) k last fn s)
  retry_loop-Within zero k last s h =
      retry_cases t p retry_on (Within zero k s) zero k last fn s
        (λ a s' e. stops zero k s s' (ap (λ x. x.1) e))
        (λ x s' e _. stops zero k s s' (ap (λ x. x.1) e))
        (λ x s' e _ _. stops zero k s s' (ap (λ x. x.1) e)) (λ x s' e _ more. absurd (omega arith))
  retry_loop-Within (suc n) k last s h =
      retry_cases t p retry_on (Within (suc n) k s) (suc n) k last fn s
        (λ a s' e. stops (suc n) k s s' (ap (λ x. x.1) e))
        (λ x s' e _. stops (suc n) k s s' (ap (λ x. x.1) e))
        (λ x s' e _ _. stops (suc n) k s s' (ap (λ x. x.1) e))
        (λ x s' e _ more.
          goes_on n k s s' (retry_loop t p retry_on (suc n) (k + 1) (some x) fn (pause t p k s'))
            (ap (λ o. o.1) e) (retry_loop-Within n (k + 1) (some x) (pause t p k s') (omega arith)))

  -- With a positive budget of attempts, and a random source that draws at most the delay,
  -- `retry_with_backoff` calls a function that does not sleep itself at most `attempts` times, and
  -- sleeps at most the sum of the un-jittered ladder, whatever the function does and whatever
  -- jitter is drawn.
  pub retry_with_backoff_budget :
      (s : S)
      → 0 < p.attempts
      → let (_, s') = retry_with_backoff t p retry_on fn s in
        (calls s' ≤ calls s + p.attempts) × (slept s' ≤ slept s + sum (delays p))
  unfolding retry_with_backoff backoff_delays
  retry_with_backoff_budget s h =
      let e : p.attempts ≡ suc (p.attempts - 1) = omega arith in
      let n = p.attempts - 1 in
      let w = retry_loop-Within n 1 none s (omega arith) in
      let total =
        ap (λ k. spent (delays p) k 1) (length-ladder n p.base_delay p.multiplier p.max_delay) in
      subst
        (λ k.
          let (_, s') = retry_loop t p retry_on k 1 none fn s in
          (calls s' ≤ calls s + p.attempts) × (slept s' ≤ slept s + sum (delays p)))
        (sym e) (omega arith, omega (arith, total, spent-eq-sum (delays p)))
