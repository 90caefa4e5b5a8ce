-- ===== src/System/Grows.antt =====
-- What `charge` of app/payment/gateway_client.py does to the gateway beside the key that it charges:
-- the count of no key falls.
use commerceops_ai_platform.Base.{ℕ, ◌≤◌, ◌≡◌, sym, subst, some, String, Result, ok, err, arith}
use commerceops_ai_platform.Reliability.{Failure}
use commerceops_ai_platform.Reliability.Retry.Rule.{Post, IsRule}
use commerceops_ai_platform.Reliability.Protected.{Setup, Guarded, protected_call}
use commerceops_ai_platform.Reliability.Protected.Rule.{outside, protected_call-Post}
use commerceops_ai_platform.Payment.{
  GatewayOutcome, GatewayError, ChargeBody, IdempotencyKey, order_key,
}
use commerceops_ai_platform.Payment.Gateway
use commerceops_ai_platform.Payment.Gateway.{is_unavailable, read_reply, post_charge}
use commerceops_ai_platform.FakeGateway
use commerceops_ai_platform.FakeGateway.{ChargeResponse, Draws, Gateway, Unavailable, unavailable}
use commerceops_ai_platform.FakeGateway.Once.{executed, executed-charge}
use commerceops_ai_platform.System.Http.{Delivery-keeps}
use commerceops_ai_platform.System.Charges.{charged, charge_route, IsSequential}

charged-world : (o : Result Unavailable ChargeResponse × Gateway) → (charged o).1 ≡ o.1
charged-world (ok a, g) = λ i. g
charged-world (err unavailable, g) = λ i. g

module _ {X : Type 0} (gate : X → Gateway) (draws : X → Draws) (text_of : IdempotencyKey → String)
    (named : (order_id : ℕ) (d : Draws)
      → FakeGateway.key_of (some (text_of (order_key order_id))) d ≡ text_of (order_key order_id))
    (setup : Setup X) (post : Gateway.Post X)
    (laws : IsSequential gate draws text_of named setup post) (order_id amount : ℕ)
    (watched : String) (floor : ℕ) where
  abbrev Grown : X → Type 0
  Grown x = floor ≤ executed watched (gate x)

  abbrev Any : GatewayOutcome → X → Type 0
  Any outcome x = Grown x

  post_charge-Grown :
      (x : X) → Grown x → Post Grown Any (post_charge post order_id amount (order_key order_id) x)
  unfolding post_charge
  post_charge-Grown x v =
      read (read_reply (post order_id amount (order_key order_id) x).0)
        (post order_id amount (order_key order_id) x).1
        (Delivery-keeps gate 200 route x (post order_id amount (order_key order_id) x)
          (λ g. floor ≤ executed watched g) v grown
          (laws.post-Delivery order_id amount (order_key order_id) x))
    where
      request : FakeGateway.ChargeRequest
      request = record { order_id = order_id; amount = amount }

      route : Gateway → Result ℕ ChargeBody × Gateway
      route = charge_route (text_of (order_key order_id)) order_id amount (draws x)

      grown : floor ≤ executed watched (route (gate x)).1
      grown =
          subst (λ g. floor ≤ executed watched g)
            (sym (
              charged-world (
                FakeGateway.charge (some (text_of (order_key order_id))) request (draws x)
                  (gate x))))
            (omega (
              arith,
              v,
              executed-charge watched (some (text_of (order_key order_id))) request (draws x)
                  (gate x),
            ))

      read : (r : Result GatewayError GatewayOutcome) (x' : X) → Grown x' → Post Grown Any (r, x')
      read (ok outcome) x' h = h
      read (err e) x' h = h

  pub charge-Grown :
      (g : Guarded X) → Grown g.1.1 → Grown (Gateway.charge setup post order_id amount g).1.1.1
  unfolding Gateway.charge
  charge-Grown (b, (c, x)) v =
      go
        (protected_call setup is_unavailable (post_charge post order_id amount (order_key order_id))
          (b, (c, x)))
        (protected_call-Post setup is_unavailable
          (post_charge post order_id amount (order_key order_id)) Grown Any rule b c x v)
    where
      rule : IsRule setup.timing (post_charge post order_id amount (order_key order_id)) Grown Any
      rule = record {
        uniform = λ d x v.
            subst (λ g. floor ≤ executed watched g) (sym (laws.gate-IsApart.part-uniform d x)) v;
        sleep = λ d x v.
            subst (λ g. floor ≤ executed watched g) (sym (laws.gate-IsApart.part-sleep d x)) v;
        attempt = post_charge-Grown;
      }

      go :
          (out : Result (Failure GatewayError) GatewayOutcome × Guarded X)
          → Post Grown Any (outside out)
          → Grown out.1.1.1
      go (ok a, g) h = h
      go (err e, g) h = h
