-- ===== src/System/Apart.antt =====
-- A guarded request that leaves a part of the world alone, however often it is sent.
use commerceops_ai_platform.Base.{Bool, ◌≡◌, ◌∙◌, Result, ok, err, Exec}
use commerceops_ai_platform.Reliability.{Failure}
use commerceops_ai_platform.Reliability.Retry.Rule.{Post, IsRule}
use commerceops_ai_platform.Reliability.Protected.{Setup, Guarded, protected_call}
use commerceops_ai_platform.Reliability.Protected.Rule.{outside, protected_call-Post}
use commerceops_ai_platform.System.Stock.{IsApart}

module _ {X P E A : Type 0} (part : X → P) (setup : Setup X) (retry_on : E → Bool) (fn : Exec X E A)
    (apart : IsApart part setup.timing) (attempt : (x : X) → part (fn x).1 ≡ part x)
    (before : P) where
  abbrev Same : X → Type 0
  Same x = part x ≡ before

  abbrev Any : A → X → Type 0
  Any a x = Same x

  told : (o : Result E A) (x : X) → Same x → Post Same Any (o, x)
  told (ok a) x h = h
  told (err e) x h = h

  told_outside :
      (out : Result (Failure E) A × Guarded X) → Post Same Any (outside out) → Same out.1.1.1
  told_outside (ok a, g) h = h
  told_outside (err e, g) h = h

  pub protected_call_apart :
      (g : Guarded X) → Same g.1.1 → Same (protected_call setup retry_on fn g).1.1.1
  protected_call_apart (b, (c, x)) h =
      told_outside (protected_call setup retry_on fn (b, (c, x)))
        (protected_call-Post setup retry_on fn Same Any rule b c x h)
    where
      rule : IsRule setup.timing fn Same Any
      rule = record {
        uniform = λ d x i. apart.part-uniform d x ∙ i;
        sleep = λ d x i. apart.part-sleep d x ∙ i;
        attempt = λ x i. told (fn x).0 (fn x).1 (attempt x ∙ i);
      }
