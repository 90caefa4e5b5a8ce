-- ===== src/Reliability/Retry/Cases.antt =====
-- One round of the retry loop, by how the attempt ends.
use commerceops_ai_platform.Base.{
  ℕ, suc, ◌+◌, ◌≡◌, ◌≢◌, refl, sym, subst, Bool, true, false, Option, some, arith, ◌==◌, Result, ok,
  err, Exec,
}
use commerceops_ai_platform.Reliability.Failures.{Failure, raised, retries_exhausted}
use commerceops_ai_platform.Reliability.Retry.{Timing, Policy, pause, retry_loop}

module _ {S E A : Type 0} (t : Timing S) (p : Policy) (retry_on : E → Bool) where
  -- An attempt returns, raises what is not retried, is the last, or is followed by another.
  pub retry_cases :
      (P : Result (Failure E) A × S → Type 0) (n attempt : ℕ) (last : Option E) (fn : Exec S E A)
      (s : S)
      → ((a : A) (s' : S) → fn s ≡ (ok a, s') → P (ok a, s'))
      → ((e : E) (s' : S) → fn s ≡ (err e, s') → retry_on e ≡ false → P (err (raised e), s'))
      → ((e : E) (s' : S)
          → fn s ≡ (err e, s')
          → retry_on e ≡ true
          → attempt ≡ p.attempts
          → P (err (retries_exhausted (some e)), s'))
      → ((e : E) (s' : S)
          → fn s ≡ (err e, s')
          → retry_on e ≡ true
          → attempt ≢ p.attempts
          → P (retry_loop t p retry_on n (attempt + 1) (some e) fn (pause t p attempt s')))
      → P (retry_loop t p retry_on (suc n) attempt last fn s)
  unfolding retry_loop
  retry_cases P n attempt last fn s returns raises ends again = go (fn s).0 (fn s).1 refl
    where
      failed :
          (e : E) (s' : S)
          → fn s ≡ (err e, s')
          → (b c : Bool) → retry_on e ≡ b
          → (attempt == p.attempts) ≡ c
          → P (retry_loop t p retry_on (suc n) attempt last fn s)
      failed e s' h false c hb hc = subst P (sym (ground arith)) (raises e s' h hb)
      failed e s' h true true hb hc = subst P (sym (ground arith)) (ends e s' h hb (ground arith))
      failed e s' h true false hb hc = subst P (sym (ground arith)) (again e s' h hb (ground arith))

      go :
          (r : Result E A) (s' : S)
          → fn s ≡ (r, s')
          → P (retry_loop t p retry_on (suc n) attempt last fn s)
      go (ok a) s' h = subst P (sym (ground arith)) (returns a s' h)
      go (err e) s' h = failed e s' h (retry_on e) (attempt == p.attempts) refl refl
