-- ===== src/System/Payments.antt =====
-- The Payment service (app/payment/router.py and app/payment/service.py) with its rows and its
-- gateway, behind the client of app/clients/payment_client.py: what the rows say of the gateway.
use commerceops_ai_platform.Base.{
  ℕ, ◌≤◌, ◌≡◌, refl, subst, inl, inr, Bool-cases, true, Option, none, some, Option-cases, String,
  List, [], ◌∷◌, ◌++◌, ◌==◌, if◌then◌else◌, Result, ok, err, arith,
}
use commerceops_ai_platform.Reliability.Protected.{Setup, Guarded}
use commerceops_ai_platform.Payment.{
  Status, success, failed, unknown, GatewayOutcome, IdempotencyKey, order_key, PaymentRequest,
  PaymentResult,
}
use commerceops_ai_platform.Payment.Gateway
use commerceops_ai_platform.Payment.Gateway.{is_success}
use commerceops_ai_platform.Payment.Service
use commerceops_ai_platform.Payment.Service.{Payment, find_payment, row_of}
use commerceops_ai_platform.Payment.Service.Stored.{find_payment-append, find_payment-append_other}
use commerceops_ai_platform.Payment.Router.{is_request, create_payment}
use commerceops_ai_platform.FakeGateway
use commerceops_ai_platform.FakeGateway.{Draws, Gateway}
use commerceops_ai_platform.FakeGateway.Once.{executed, IsConsistent}
use commerceops_ai_platform.System.Charges.{IsSequential, Charged, charge-Charged}
use commerceops_ai_platform.System.Grows.{charge-Grown}

-- How often the gateway must have charged an order, by its row.
abbrev pub due : Option Payment → ℕ
due none = 0
due (some row) = if is_success row.status then 1 else 0

module _ {Z : Type 0} (gate : Z → Gateway) (draws : Z → Draws) (text_of : IdempotencyKey → String)
    (named : (order_id : ℕ) (d : Draws)
      → FakeGateway.key_of (some (text_of (order_key order_id))) d ≡ text_of (order_key order_id))
    (setup : Setup Z) (post : Gateway.Post Z)
    (laws : IsSequential gate draws text_of named setup post) where
  -- How often the gateway has charged an order.
  abbrev pub charges : ℕ → Guarded Z → ℕ
  charges n g = executed (text_of (order_key n)) (gate g.1.1)

  -- The gateway's books are consistent, it has charged each order that has a SUCCESS row, and some
  -- order at least as often as `floor`.
  pub record IsBacked (watched floor : ℕ) (p : List Payment × Guarded Z) : Type 0 where
    pub consistent : IsConsistent (gate p.1.1.1)
    pub backed : (n : ℕ) → due (find_payment n p.0) ≤ charges n p.1
    pub grown : floor ≤ charges watched p.1

  abbrev pub route :
      String
      → PaymentRequest
      → List Payment × Guarded Z
      → Result ℕ PaymentResult × (List Payment × Guarded Z)
  route = create_payment (Gateway.charge setup post)

  module _ (watched floor : ℕ) where
    -- What a request to the route leaves behind, by its answer.
    abbrev pub Backs : ℕ → Result ℕ PaymentResult × (List Payment × Guarded Z) → Type 0
    Backs n (ok result, p) = IsBacked watched floor p × (due (some result) ≤ charges n p.1)
    Backs n (err code, p) = IsBacked watched floor p × (code ≡ 422)

    pub due-Charged :
        (payload : PaymentRequest) (st : Status) (g : Guarded Z)
        → Charged gate draws text_of named setup post laws payload.order_id payload.amount st g.1.1
        → (if is_success st then 1 else 0) ≤ charges payload.order_id g
    due-Charged payload success g h = omega (arith, h)
    due-Charged payload failed g h = omega arith
    due-Charged payload unknown g h = omega arith

    module _ (uuid : String) (payload : PaymentRequest) (rows : List Payment) (g : Guarded Z)
        (v : IsBacked watched floor (rows, g))
        (fresh : find_payment payload.order_id rows ≡ none) where
      abbrev out : GatewayOutcome × Guarded Z
      out = Gateway.charge setup post payload.order_id payload.amount g

      abbrev row : Payment
      row = row_of uuid payload out.0

      row_backed : due (some row) ≤ charges payload.order_id out.1
      row_backed =
          due-Charged payload out.0.status out.1
            (charge-Charged gate draws text_of named setup post laws payload.order_id payload.amount
              g v.consistent).1

      kept_backed : (n : ℕ) → due (find_payment n rows) ≤ charges n out.1
      kept_backed n =
          charge-Grown gate draws text_of named setup post laws payload.order_id payload.amount
            (text_of (order_key n)) (due (find_payment n rows)) g (v.backed n)

      same_order : (n m : ℕ) → (n == m) ≡ true → n ≡ m
      same_order n m e = ground (arith, e)

      stored-IsBacked : IsBacked watched floor (rows ++ row ∷ [], out.1)
      stored-IsBacked = record {
        consistent =
            (charge-Charged gate draws text_of named setup post laws payload.order_id payload.amount
              g v.consistent).0;
        backed = λ n. elim (Bool-cases (payload.order_id == n)) [
          | inl mine ↦
              subst (λ m. due (find_payment m (rows ++ row ∷ [])) ≤ charges m out.1)
                (same_order payload.order_id n mine)
                (rw (find_payment-append payload.order_id rows row fresh refl) row_backed)
          | inr other ↦ rw (find_payment-append_other n rows row other) (kept_backed n)
        ];
        grown =
            charge-Grown gate draws text_of named setup post laws payload.order_id payload.amount
              (text_of (order_key watched)) floor g v.grown;
      }

    pub route-Backs :
        (uuid : String) (payload : PaymentRequest) (p : List Payment × Guarded Z)
        → IsBacked watched floor p
        → Backs payload.order_id (route uuid payload p)
    unfolding create_payment Service.charge Service.store
    route-Backs uuid payload (rows, g) v = elim (Bool-cases (is_request payload)) [
      | inr invalid ↦ rw invalid (v, refl)
      | inl valid ↦ elim (Option-cases (find_payment payload.order_id rows)) [
        | inl fresh ↦
            rw (valid, fresh, Service.charge)
              (stored-IsBacked uuid payload rows g v fresh, row_backed uuid payload rows g v fresh)
        | inr (stored, found) ↦
            rw (valid, found, Service.charge)
              (v, subst (λ r. due r ≤ charges payload.order_id g) found (v.backed payload.order_id))
      ]
    ]
