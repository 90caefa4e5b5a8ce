-- ===== src/Reliability/Retry/Rule.antt =====
-- An invariant of the state, through the retries.
use commerceops_ai_platform.Base.{
  ℕ, zero, suc, ◌+◌, subst, Bool, Bool-cases, inl, inr, Option, none, some, Result, ok, err, Exec,
}
use commerceops_ai_platform.Reliability.Retry.{
  Timing, Policy, pause, jittered, delay_at, delays, retry_loop, retry_with_backoff,
}
use commerceops_ai_platform.Reliability.Retry.Cases.{retry_cases}

-- What holds after a call: `Q` of a returned value, and `I` still, where an exception was raised.
abbrev pub Post : {S E A : Type 0} → (S → Type 0) → (A → S → Type 0) → Result E A × S → Type 0
Post I Q (ok a, s) = Q a s
Post I Q (err e, s) = I s

-- One attempt meets its postcondition, and drawing and sleeping keep the invariant.
pub record IsRule {S E A : Type 0} (t : Timing S) (fn : Exec S E A) (I : S → Type 0)
    (Q : A → S → Type 0) : Type 0 where
  pub uniform : (d : ℕ) (s : S) → I s → I (t.uniform d s).1
  pub sleep : (d : ℕ) (s : S) → I s → I (t.sleep d s)
  pub attempt : (s : S) → I s → Post I Q (fn s)

module _ {S E A : Type 0} (t : Timing S) (p : Policy) (retry_on : E → Bool) (fn : Exec S E A)
    (I : S → Type 0) (Q : A → S → Type 0) (rule : IsRule t fn I Q) where
  pause-keeps : (k : ℕ) (s : S) → I s → I (pause t p k s)
  unfolding pause jittered
  pause-keeps k s i = elim (Bool-cases p.jitter) [
    | inl yes_ ↦ rw yes_ (rule.sleep _ _ (rule.uniform (delay_at (delays p) k) s i))
    | inr no_ ↦ rw no_ (rule.sleep (delay_at (delays p) k) s i)
  ]

  retry_loop-Post :
      (n k : ℕ) (last : Option E) (s : S) → I s → Post I Q (retry_loop t p retry_on n k last fn s)
  unfolding retry_loop
  retry_loop-Post zero k last s i = i
  retry_loop-Post (suc n) k last s i =
      retry_cases t p retry_on (Post I Q) n k last fn s
        (λ a s' e. subst (Post I Q) e (rule.attempt s i))
        (λ x s' e _. subst (Post I Q) e (rule.attempt s i))
        (λ x s' e _ _. subst (Post I Q) e (rule.attempt s i))
        (λ x s' e _ _.
          retry_loop-Post n (k + 1) (some x) (pause t p k s')
            (pause-keeps k s' (subst (Post I Q) e (rule.attempt s i))))

  pub retry_with_backoff-Post : (s : S) → I s → Post I Q (retry_with_backoff t p retry_on fn s)
  unfolding retry_with_backoff
  retry_with_backoff-Post s i = retry_loop-Post p.attempts 1 none s i
