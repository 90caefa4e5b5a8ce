-- ===== src/Reliability/Protected/Raised.antt =====
-- Exceptions that are not retried, through the layers of app/core/reliability.py.
use commerceops_ai_platform.Base.{
  ℕ, zero, suc, ◌+◌, ◌<◌, ◌≤◌, ◌≡◌, refl, sym, ap, subst, ◌∙◌, Bool, true, false, leb, Result, err,
  arith, if◌then◌else◌, lt→ltb,
}
use commerceops_ai_platform.Reliability.Failures.{Failure, raised, circuit_open}
use commerceops_ai_platform.Reliability.Retry.{retry_with_backoff}
use commerceops_ai_platform.Reliability.Retry.Outcome.{retry_with_backoff_raised}
use commerceops_ai_platform.Reliability.Breaker
use commerceops_ai_platform.Reliability.Breaker.{
  Breaker, closed, open_, before_call, on_failure, settle,
}
use commerceops_ai_platform.Reliability.Bulkhead
use commerceops_ai_platform.Reliability.Bulkhead.{Bulkhead}
use commerceops_ai_platform.Reliability.Protected.{Setup, Guarded, protected_call}

pub before_call_closed : (c : Breaker) (now : ℕ) → c.state ≡ closed → before_call c now ≡ (true, c)
unfolding before_call
before_call_closed c now h = ground arith

-- A call that a closed breaker lets through and that fails.
call_fails :
    {S E A : Type 0} (clock : S → ℕ) (fn : S → Result (Failure E) A × S) (c : Breaker) (s : S)
    (e : Failure E) (s' : S)
    → c.state ≡ closed
    → fn s ≡ (err e, s')
    → Breaker.call clock fn (c, s) ≡ (err e, (on_failure c (clock s'), s'))
unfolding Breaker.call
call_fails clock fn c s e s' h x =
    ap (λ o. if o.0 then settle clock o.1 (fn s) else (err circuit_open, (o.1, s)))
      (before_call_closed c (clock s) h)
    ∙ ap (settle clock c) x

module _ {S E A : Type 0} (u : Setup S) (retry_on : E → Bool) (attempt : S → Result E A × S) where
  -- With a free permit and a closed breaker, a call whose first attempt raises what is not retried
  -- raises it after that one attempt.
  protected_call_raised :
      (b : Bulkhead) (c : Breaker) (s : S) (e : E) (s' : S)
      → 0 < u.policy.attempts
      → 0 < b.permits
      → c.state ≡ closed
      → attempt s ≡ (err e, s')
      → retry_on e ≡ false
      → protected_call u retry_on attempt (b, (c, s))
        ≡ (err (raised e), (b, (on_failure c (u.clock s'), s')))
  unfolding protected_call
  protected_call_raised b c s e s' budget free shut h no_retry =
      let inner = Breaker.call u.clock (retry_with_backoff u.timing u.policy retry_on attempt) in
      let fails =
        call_fails u.clock (retry_with_backoff u.timing u.policy retry_on attempt) c s (raised e) s'
          shut
          (retry_with_backoff_raised u.timing u.policy retry_on attempt s e s' budget h no_retry) in
      (Bulkhead.call_lem inner b (c, s)).1
      ∙ rw (lt→ltb 0 b.permits free) (ap (λ o. (o.0, (b, o.1))) fails)

  -- So many calls, one after another.
  unfoldable pub calls : ℕ → Guarded S → Guarded S
  calls zero g = g
  calls (suc n) g = calls n (protected_call u retry_on attempt g).1

  -- So many attempts, without the layers.
  unfoldable pub attempts : ℕ → S → S
  attempts zero s = s
  attempts (suc n) s = attempts n (attempt s).1

  -- Each attempt raises, and nothing that is retried.
  abbrev pub Refuses : Type 0
  Refuses = (s : S) → (e : E) × (((attempt s).0 ≡ err e) × (retry_on e ≡ false))

  -- What so many calls leave: the bulkhead, what is outside, and whether the circuit is open.
  abbrev pub Opened : ℕ → S → Bool → Bulkhead → Guarded S → Type 0
  Opened n s' opens b g =
      let (b1, (c1, s1)) = calls n g in
      (b1 ≡ b) × (s1 ≡ s') × (c1.state ≡ (if opens then open_ else closed))

  -- One call more, in front.
  next :
      (n : ℕ) (opens : Bool) (b : Bulkhead) (c : Breaker) (s : S)
      → 0 < u.policy.attempts
      → 0 < b.permits
      → Refuses
      → c.state ≡ closed
      → let s1 = (attempt s).1 in
        Opened n (attempts n s1) opens b (b, (on_failure c (u.clock s1), s1))
        → Opened (suc n) (attempts (suc n) s) opens b (b, (c, s))
  unfolding calls attempts
  next n opens b c s budget free refuses shut after =
      let (e, (raises, plain)) = refuses s in
      let once =
        protected_call_raised b c s e (attempt s).1 budget free shut
          (λ i. (raises i, (attempt s).1)) plain in
      subst (Opened n (attempts n (attempt s).1) opens b) (sym (ap (λ o. o.1) once)) after

  -- Where the budget of attempts is positive, a permit is free and each attempt raises what is not
  -- retried: of a closed breaker below its threshold, as many calls as do not exceed what the
  -- threshold leaves make one attempt each and keep the bulkhead, and the circuit is open after
  -- them exactly when they reach the threshold together with the failures that were counted
  -- before, and closed otherwise.
  pub refusals_open :
      (n : ℕ) (b : Bulkhead) (c : Breaker) (s : S)
      → 0 < u.policy.attempts
      → 0 < b.permits
      → Refuses
      → c.state ≡ closed
      → c.consecutive_failures < c.failure_threshold
      → c.consecutive_failures + n ≤ c.failure_threshold
      → Opened n (attempts n s) (leb c.failure_threshold (c.consecutive_failures + n)) b (b, (c, s))
  unfolding calls attempts
  refusals_open zero b c s budget free refuses shut below h = (refl, refl, ground arith)
  refusals_open (suc zero) b c s budget free refuses shut below h =
      next zero _ b c s budget free refuses shut
        (refl, refl, unfold on_failure in ground (arith, h))
  refusals_open (suc (suc n)) b c s budget free refuses shut below h =
      let ih =
        refusals_open (suc n) b (on_failure c (u.clock (attempt s).1)) (attempt s).1 budget free
          refuses (unfold on_failure in ground (arith, h)) (unfold on_failure in ground (arith, h))
          (unfold on_failure in ground (arith, h)) in
      next (suc n) _ b c s budget free refuses shut
        (ih.0, ih.1, ih.2 ∙ unfold on_failure in ground (arith, h))
