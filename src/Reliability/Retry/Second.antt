-- ===== src/Reliability/Retry/Second.antt =====
-- `retry_with_backoff` where the first attempt fails and the second one succeeds.
use commerceops_ai_platform.Base.{
  ℕ, suc, ◌-◌, ◌<◌, ◌≡◌, subst, Bool, true, none, ok, err, Exec, arith,
}
use commerceops_ai_platform.Reliability.Retry.{
  Timing, Policy, pause, retry_loop, retry_with_backoff,
}

module _ {S E A : Type 0} (t : Timing S) (p : Policy) (retry_on : E → Bool) (fn : Exec S E A) where
  retry_loop_second :
      (n : ℕ) (s s1 s2 : S) (e : E) (a : A)
      → 1 < p.attempts
      → fn s ≡ (err e, s1)
      → retry_on e ≡ true
      → fn (pause t p 1 s1) ≡ (ok a, s2)
      → retry_loop t p retry_on (suc (suc n)) 1 none fn s ≡ (ok a, s2)
  unfolding retry_loop
  retry_loop_second n s s1 s2 e a more first retried second = ground (arith, first, retried, second)

  pub retry_with_backoff_second :
      (s s1 s2 : S) (e : E) (a : A)
      → 1 < p.attempts
      → fn s ≡ (err e, s1)
      → retry_on e ≡ true
      → fn (pause t p 1 s1) ≡ (ok a, s2)
      → retry_with_backoff t p retry_on fn s ≡ (ok a, s2)
  unfolding retry_with_backoff
  retry_with_backoff_second s s1 s2 e a more first retried second =
      let k : suc (suc (p.attempts - 2)) ≡ p.attempts = omega arith in
      subst (λ n. retry_loop t p retry_on n 1 none fn s ≡ (ok a, s2)) k
        (retry_loop_second (p.attempts - 2) s s1 s2 e a more first retried second)
