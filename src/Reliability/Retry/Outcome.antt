-- ===== src/Reliability/Retry/Outcome.antt =====
-- What a result of `retry_with_backoff` says of the calls that it made.
use commerceops_ai_platform.Base.{
  ℕ, zero, suc, ◌+◌, ◌-◌, ◌<◌, ◌≡◌, sym, ap, ◌∙◌, subst, Bool, true, false, Option, none, some,
  arith, Result, ok, err, Exec,
}
use commerceops_ai_platform.Reliability.Failures.{
  Failure, raised, retries_exhausted, circuit_open, bulkhead_full,
}
use commerceops_ai_platform.Reliability.Retry.{Timing, Policy, retry_loop, retry_with_backoff}
use commerceops_ai_platform.Reliability.Retry.Cases.{retry_cases}

module _ {S E A : Type 0} (retry_on : E → Bool) (fn : Exec S E A) where
  -- The call of `fn` that a result and the final state come from.
  abbrev pub Outcome : Result (Failure E) A → S → Type 0
  Outcome (ok a) s' = (s : S) × (fn s ≡ (ok a, s'))
  Outcome (err (raised e)) s' = (s : S) × (fn s ≡ (err e, s')) × (retry_on e ≡ false)
  Outcome (err (retries_exhausted (some e))) s' =
      (s : S) × (fn s ≡ (err e, s')) × (retry_on e ≡ true)
  Outcome (err (retries_exhausted none)) s' = ⊥
  Outcome (err circuit_open) s' = ⊥
  Outcome (err bulkhead_full) s' = ⊥

module _ {S E A : Type 0} (t : Timing S) (p : Policy) (retry_on : E → Bool) where
  retry_loop-Outcome :
      (n attempt : ℕ) (last : Option E) (fn : Exec S E A) (s : S)
      → attempt + n ≡ p.attempts
      → let (r, s') = retry_loop t p retry_on (suc n) attempt last fn s in Outcome retry_on fn r s'
  retry_loop-Outcome zero attempt last fn s h =
      retry_cases t p retry_on (λ out. Outcome retry_on fn out.0 out.1) zero attempt last fn s
        (λ a s' e. (s, e)) (λ x s' e no_retry. (s, e, no_retry)) (λ x s' e retry _. (s, e, retry))
        (λ x s' e retry more. absurd (omega arith))
  retry_loop-Outcome (suc n) attempt last fn s h =
      retry_cases t p retry_on (λ out. Outcome retry_on fn out.0 out.1) (suc n) attempt last fn s
        (λ a s' e. (s, e)) (λ x s' e no_retry. (s, e, no_retry)) (λ x s' e retry _. (s, e, retry))
        (λ x s' e retry more. retry_loop-Outcome n (attempt + 1) (some x) fn _ (omega arith))

  -- With a budget of at least one attempt the result is the result of one call of `fn`: a returned
  -- value or a raised exception that is not retried comes back untouched, `retries_exhausted`
  -- carries a retried exception, and no other failure is made up. The final state is the one that
  -- this call of `fn` left.
  pub retry_with_backoff-Outcome :
      (fn : Exec S E A) (s : S)
      → 0 < p.attempts
      → let (r, s') = retry_with_backoff t p retry_on fn s in Outcome retry_on fn r s'
  unfolding retry_with_backoff
  retry_with_backoff-Outcome fn s h =
      let e : p.attempts ≡ suc (p.attempts - 1) = omega arith in
      subst (λ k. let (r, s') = retry_loop t p retry_on k 1 none fn s in Outcome retry_on fn r s')
        (sym e) (retry_loop-Outcome (p.attempts - 1) 1 none fn s (omega arith))

  -- An exception that is not retried is raised after one call, with no pause.
  pub retry_with_backoff_raised :
      (fn : Exec S E A) (s : S) (e : E) (s' : S)
      → 0 < p.attempts
      → fn s ≡ (err e, s')
      → retry_on e ≡ false
      → retry_with_backoff t p retry_on fn s ≡ (err (raised e), s')
  unfolding retry_with_backoff
  retry_with_backoff_raised fn s e s' h raises no_retry =
      let some_left : p.attempts ≡ suc (p.attempts - 1) = omega arith in
      ap (λ k. retry_loop t p retry_on k 1 none fn s) some_left ∙ first (p.attempts - 1)
    where
      first : (n : ℕ) → retry_loop t p retry_on (suc n) 1 none fn s ≡ (err (raised e), s')
      first n =
          retry_cases t p retry_on (λ out. out ≡ (err (raised e), s')) n 1 none fn s
            (λ a m x. absurd (ground (arith, sym x ∙ raises)))
            (λ y m x _. ground (arith, sym x ∙ raises))
            (λ y m x z _. absurd (ground (arith, sym x ∙ raises)))
            (λ y m x z _. absurd (ground (arith, sym x ∙ raises)))
