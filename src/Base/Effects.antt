-- ===== src/Base/Effects.antt =====
-- Code that changes state and may raise. What was written before a raise stays written, so the
-- state comes back beside the error too.
use mathlib.Core.Path.{◌≡◌, refl, sym, ap, ◌∙◌}
use mathlib.Core.Logic.{◌⊎◌, inl, inr}
use native.Mathlib.Omega.{arith}

-- Python's `None` as the value of a call that returns nothing.
abbrev pub ⊤ : Type 0
⊤ = Unit

pub data Result {ℓ κ} (E : Type ℓ) (A : Type κ) : Type (ℓ ⊔ κ) where
  ok : A → Result E A
  err : E → Result E A

pub Result-cases {ℓ κ} :
    {E : Type ℓ} {A : Type κ} (r : Result E A) → ((a : A) × (r ≡ ok a)) ⊎ ((e : E) × (r ≡ err e))
Result-cases (ok a) = inl (a, refl)
Result-cases (err e) = inr (e, refl)

abbrev pub Exec {ℓ} : Type ℓ → Type ℓ → Type ℓ → Type ℓ
Exec S E A = S → Result E A × S

module _ {ℓ} {S E A : Type ℓ} where
  abbrev pub pure : A → Exec S E A
  pure a s = (ok a, s)

  abbrev pub raise : E → Exec S E A
  raise e s = (err e, s)

  -- `try: m  except as e: handler(e)`; the handler may raise another kind of exception.
  abbrev pub catch {κ} : {F : Type κ} → Exec S E A → (E → S → Result F A × S) → S → Result F A × S
  catch m handler s = let (r, s') = m s in elim r [ ok a ↦ (ok a, s') | err e ↦ handler e s' ]

-- What is left of a block after its first step.
abbrev pub feed {ℓ} : {S E A B : Type ℓ} → (A → Exec S E B) → Result E A × S → Result E B × S
feed f (ok a, s) = f a s
feed f (err e, s) = (err e, s)

infixl 5 ◌>>=◌ ◌>>◌
abbrev pub ◌>>=◌ {ℓ} : {S E A B : Type ℓ} → Exec S E A → (A → Exec S E B) → Exec S E B
◌>>=◌ m f s = feed f (m s)

abbrev pub ◌>>◌ {ℓ} : {S E A B : Type ℓ} → Exec S E A → Exec S E B → Exec S E B
m >> k = m >>= λ _. k

-- Inversion of a bind that returned.
pub >>=-eq-ok {ℓ} :
    {S E A B : Type ℓ} (m : Exec S E A) (f : A → Exec S E B) (s : S) (b : B) (s'' : S)
    → (m >>= f) s ≡ (ok b, s'')
    → (a : A) × (s' : S) × (m s ≡ (ok a, s')) × (f a s' ≡ (ok b, s''))
>>=-eq-ok {S = S} {E = E} {A = A} m f s b s'' h = go (m s).0 (m s).1 refl
  where
    go :
        (r : Result E A) (s' : S)
        → m s ≡ (r, s')
        → (a : A) × (s' : S) × (m s ≡ (ok a, s')) × (f a s' ≡ (ok b, s''))
    go (ok a) s' e = (a, s', e, ap (feed f) (sym e) ∙ h)
    go (err x) s' e = absurd (ground (arith, ap (feed f) (sym e) ∙ h))

-- A bind whose first part returns.
pub >>=_of_ok {ℓ} :
    {S E A B : Type ℓ} (m : Exec S E A) (f : A → Exec S E B) (s : S) (a : A) (s' : S)
    → m s ≡ (ok a, s')
    → (m >>= f) s ≡ f a s'
>>=_of_ok m f s a s' e = ap (feed f) e
