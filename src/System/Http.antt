-- ===== src/System/Http.antt =====
-- What is relied on of HTTP: how a request and the route that serves it fit.
use commerceops_ai_platform.Base.{ℕ, ◌≡◌, sym, subst, Result, ok, err}
use commerceops_ai_platform.Payment.{Reply, timed_out, transport_error, response}

-- One exchange with a route that acts on the part `part` of the world. The route ran once and its
-- answer came back; or the request never reached it, and the client sees a timeout or a transport
-- error. A reply that is lost after the route ran is no such exchange.
pub data Exchange {X P B : Type 0} (part : X → P) (code : ℕ) (route : P → Result ℕ B × P) (x : X)
    (out : Reply B × X) : Type 0 where
  answered :
      (body : B) (x' : X)
      → route (part x) ≡ (ok body, part x')
      → out ≡ (response code body, x')
      → Exchange part code route x out
  refused :
      (n : ℕ) (body : B) (x' : X)
      → route (part x) ≡ (err n, part x')
      → out ≡ (response n body, x')
      → Exchange part code route x out
  timeout : (x' : X) → part x' ≡ part x → out ≡ (timed_out, x') → Exchange part code route x out
  unreachable :
      (x' : X) → part x' ≡ part x → out ≡ (transport_error, x') → Exchange part code route x out

-- An exchange, or one whose reply is lost after the route ran.
pub data Delivery {X P B : Type 0} (part : X → P) (code : ℕ) (route : P → Result ℕ B × P) (x : X)
    (out : Reply B × X) : Type 0 where
  exchanged : Exchange part code route x out → Delivery part code route x out
  lost :
      (reply : Result ℕ B) (x' : X)
      → route (part x) ≡ (reply, part x')
      → out ≡ (timed_out, x')
      → Delivery part code route x out

-- What the route keeps of the part, a request keeps.
pub Delivery-keeps :
    {X P B : Type 0} (part : X → P) (code : ℕ) (route : P → Result ℕ B × P) (x : X)
    (out : Reply B × X) (J : P → Type 0)
    → J (part x)
    → J (route (part x)).1
    → Delivery part code route x out
    → J (part out.1)
Delivery-keeps part code route x out J j k (lost reply x' e o) =
    subst (λ p. J (part p.1)) (sym o) (subst (λ p. J p.1) e k)
Delivery-keeps part code route x out J j k (exchanged (answered body x' e o)) =
    subst (λ p. J (part p.1)) (sym o) (subst (λ p. J p.1) e k)
Delivery-keeps part code route x out J j k (exchanged (refused c body x' e o)) =
    subst (λ p. J (part p.1)) (sym o) (subst (λ p. J p.1) e k)
Delivery-keeps part code route x out J j k (exchanged (timeout x' e o)) =
    subst (λ p. J (part p.1)) (sym o) (subst J (sym e) j)
Delivery-keeps part code route x out J j k (exchanged (unreachable x' e o)) =
    subst (λ p. J (part p.1)) (sym o) (subst J (sym e) j)
