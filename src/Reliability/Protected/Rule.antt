-- ===== src/Reliability/Protected/Rule.antt =====
-- An invariant of the state outside, through the layers: what holds after one attempt holds after
-- the protected call.
use commerceops_ai_platform.Base.{Bool, Bool-cases, inl, inr, Result, ok, err, Exec, ltb}
use commerceops_ai_platform.Reliability.Failures.{Failure}
use commerceops_ai_platform.Reliability.Retry.{retry_with_backoff}
use commerceops_ai_platform.Reliability.Retry.Rule.{Post, IsRule, retry_with_backoff-Post}
use commerceops_ai_platform.Reliability.Breaker
use commerceops_ai_platform.Reliability.Breaker.{Breaker, before_call, settle}
use commerceops_ai_platform.Reliability.Bulkhead
use commerceops_ai_platform.Reliability.Bulkhead.{Bulkhead}
use commerceops_ai_platform.Reliability.Protected.{Guarded, Setup, protected_call}

-- What a call leaves beside the state outside.
abbrev pub beside : {G S R : Type 0} → R × (G × S) → R × S
beside (r, (g, s)) = (r, s)

abbrev pub outside : {S R : Type 0} → R × Guarded S → R × S
outside (r, (b, (c, s))) = (r, s)

module _ {S E A : Type 0} (u : Setup S) (retry_on : E → Bool) (fn : Exec S E A) (I : S → Type 0)
    (Q : A → S → Type 0) (rule : IsRule u.timing fn I Q) where
  settle-Post :
      (c : Breaker) (out : Result (Failure E) A × S)
      → Post I Q out
      → Post I Q (beside (settle u.clock c out))
  settle-Post c (ok a, s) h = h
  settle-Post c (err e, s) h = h

  breaker-Post :
      (c : Breaker) (s : S)
      → I s
      → Post I Q
          (beside (Breaker.call u.clock (retry_with_backoff u.timing u.policy retry_on fn) (c, s)))
  unfolding Breaker.call
  breaker-Post c s i = elim (Bool-cases (before_call c (u.clock s)).0) [
    | inl admitted ↦ rw admitted (
        settle-Post (before_call c (u.clock s)).1
          (retry_with_backoff u.timing u.policy retry_on fn s)
          (retry_with_backoff-Post u.timing u.policy retry_on fn I Q rule s i))
    | inr refused ↦ rw refused i
  ]

  -- A protected call meets the postcondition of one attempt, and keeps the invariant otherwise.
  pub protected_call-Post :
      (b : Bulkhead) (c : Breaker) (s : S)
      → I s
      → Post I Q (outside (protected_call u retry_on fn (b, (c, s))))
  unfolding protected_call
  protected_call-Post b c s i =
      let inner = Breaker.call u.clock (retry_with_backoff u.timing u.policy retry_on fn) in
      elim (Bool-cases (ltb 0 b.permits)) [
        | inl free ↦ rw (Bulkhead.call_lem inner b (c, s)).1 (rw free (breaker-Post c s i))
        | inr full ↦ rw (Bulkhead.call_lem inner b (c, s)).1 (rw full i)
      ]
