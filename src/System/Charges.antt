-- ===== src/System/Charges.antt =====
-- The Payment service before the gateway of fake_gateway/main.py: how often an order is charged when
-- requests are retried and replies are lost.
use commerceops_ai_platform.Base.{
  ℕ, ◌≤◌, ◌≡◌, refl, sym, ap, subst, ◌∙◌, some, String, Result, ok, err, arith,
}
use commerceops_ai_platform.Reliability.{
  Failure, raised, retries_exhausted, circuit_open, bulkhead_full,
}
use commerceops_ai_platform.Reliability.Retry.Rule.{Post, IsRule}
use commerceops_ai_platform.Reliability.Protected.{Setup, Guarded, protected_call}
use commerceops_ai_platform.Reliability.Protected.Rule.{outside, protected_call-Post}
use commerceops_ai_platform.Payment.{
  Status, success, failed, unknown, GatewayOutcome, GatewayError, gateway_declined,
  gateway_unavailable, ChargeBody, IdempotencyKey, order_key, Reply, response,
}
use commerceops_ai_platform.Payment.Gateway
use commerceops_ai_platform.Payment.Gateway.{is_unavailable, read_reply, post_charge, outcome_of}
use commerceops_ai_platform.FakeGateway
use commerceops_ai_platform.FakeGateway.{
  ChargeRequest, ChargeResponse, Draws, Gateway, Unavailable, unavailable,
}
use commerceops_ai_platform.FakeGateway.Once.{
  executed, IsConsistent, charge-IsConsistent, charge_executed,
}
use commerceops_ai_platform.System.Http.{
  Delivery, exchanged, lost, answered, refused, timeout, unreachable,
}
use commerceops_ai_platform.System.Stock.{IsApart}

-- The JSON of an answer, and the 503.
abbrev pub charged : Result Unavailable ChargeResponse × Gateway → Result ℕ ChargeBody × Gateway
charged (ok a, g) = (ok (record { status = a.status; transaction_id = some a.transaction_id }), g)
charged (err unavailable, g) = (err 503, g)

-- `POST /charge` under a key.
abbrev pub charge_route : String → ℕ → ℕ → Draws → Gateway → Result ℕ ChargeBody × Gateway
charge_route key order_id amount d g =
    charged (FakeGateway.charge (some key) (record { order_id = order_id; amount = amount }) d g)

-- What one request under a key does to the books, by its answer.
abbrev Booked : String → Result ℕ ChargeBody × Gateway → Type 0
Booked key (ok body, g) = IsConsistent g × (executed key g ≡ 1)
Booked key (err n, g) = IsConsistent g × (n ≡ 503)

module _ (key : String) (named : (d : Draws) → FakeGateway.key_of (some key) d ≡ key) where
  charge_route-Booked :
      (order_id amount : ℕ) (d : Draws) (g : Gateway)
      → IsConsistent g
      → Booked key (charge_route key order_id amount d g)
  charge_route-Booked order_id amount d g v =
      go (FakeGateway.charge (some key) request d g).0 (FakeGateway.charge (some key) request d g).1
        refl
    where
      request : ChargeRequest
      request = record { order_id = order_id; amount = amount }

      go :
          (o : Result Unavailable ChargeResponse) (g' : Gateway)
          → FakeGateway.charge (some key) request d g ≡ (o, g')
          → Booked key (charged (o, g'))
      go (ok a) g' e = (
        subst IsConsistent (ap (λ x. x.1) e) (charge-IsConsistent (some key) request d g v),
        ap (λ k. executed k g') (sym (named d)) ∙ charge_executed (some key) request d g a g' v e,
      )
      go (err unavailable) g' e = (
        subst IsConsistent (ap (λ x. x.1) e) (charge-IsConsistent (some key) request d g v),
        refl,
      )

  Booked-IsConsistent : (o : Result ℕ ChargeBody × Gateway) → Booked key o → IsConsistent o.1
  Booked-IsConsistent (ok body, g) b = b.0
  Booked-IsConsistent (err n, g) b = b.0

module _ {X : Type 0} (gate : X → Gateway) (draws : X → Draws) (text_of : IdempotencyKey → String)
    (named : (order_id : ℕ) (d : Draws)
      → FakeGateway.key_of (some (text_of (order_key order_id))) d ≡ text_of (order_key order_id))
    (setup : Setup X) (post : Gateway.Post X) where
  -- What is relied on of the requests to the gateway: one after another, each runs the route once at
  -- most, and its reply may be lost; a key's text is not empty; waiting charges nothing.
  pub record IsSequential : Type 0 where
    pub post-Delivery :
        (order_id amount : ℕ) (key : IdempotencyKey) (x : X)
        → Delivery gate 200
            (charge_route (text_of key) order_id amount (draws x))
            x
            (post order_id amount key x)
    pub gate-IsApart : IsApart gate setup.timing

  module _ (laws : IsSequential) (order_id amount : ℕ) where
    abbrev key : String
    key = text_of (order_key order_id)

    abbrev Sound : X → Type 0
    Sound x = IsConsistent (gate x)

    abbrev Once : GatewayOutcome → X → Type 0
    Once outcome x = IsConsistent (gate x) × (executed key (gate x) ≡ 1)

    post_charge-Post :
        (x : X)
        → Sound x
        → Post Sound Once (post_charge post order_id amount (order_key order_id) x)
    unfolding post_charge read_reply
    post_charge-Post x v = delivered (laws.post-Delivery order_id amount (order_key order_id) x)
      where
        booked : Booked key (charge_route key order_id amount (draws x) (gate x))
        booked = charge_route-Booked key (named order_id) order_id amount (draws x) (gate x) v

        from :
            (o : Reply ChargeBody × X)
            → post order_id amount (order_key order_id) x ≡ o
            → Post Sound Once (read_reply o.0, o.1)
            → Post Sound Once (post_charge post order_id amount (order_key order_id) x)
        from o e h = subst (λ p. Post Sound Once (read_reply p.0, p.1)) (sym e) h

        by_status :
            (st : Status) (body : ChargeBody) (x' : X)
            → body.status ≡ st
            → IsConsistent (gate x') × (executed key (gate x') ≡ 1)
            → Post Sound Once (read_reply (response 200 body), x')
        by_status success body x' e h = rw e h
        by_status failed body x' e h = rw e h
        by_status unknown body x' e h = rw e h

        delivered :
            Delivery gate 200
              (charge_route key order_id amount (draws x))
              x
              (post order_id amount (order_key order_id) x)
            → Post Sound Once (post_charge post order_id amount (order_key order_id) x)
        delivered (lost reply x' e out) =
            from _ out (Booked-IsConsistent key (named order_id) _ (subst (Booked key) e booked))
        delivered (exchanged (answered body x' e out)) =
            from _ out (by_status body.status body x' refl (subst (Booked key) e booked))
        delivered (exchanged (refused c body x' e out)) =
            let b = subst (Booked key) e booked in
            from _ out
              (subst (λ n. Post Sound Once (read_reply (response n body), x')) (sym b.1) b.0)
        delivered (exchanged (timeout x' e out)) = from _ out (subst IsConsistent (sym e) v)
        delivered (exchanged (unreachable x' e out)) = from _ out (subst IsConsistent (sym e) v)

    -- By the status of an outcome: the key was charged exactly once, or at most once.
    abbrev pub Charged : Status → X → Type 0
    Charged success x = executed key (gate x) ≡ 1
    Charged failed x = executed key (gate x) ≤ 1
    Charged unknown x = executed key (gate x) ≤ 1

    at_most_once : (x : X) → IsConsistent (gate x) → executed key (gate x) ≤ 1
    at_most_once x v = ground (arith, v key)

    by_outcome :
        (out : Result (Failure GatewayError) GatewayOutcome × Guarded X)
        → Post Sound Once (outside out)
        → IsConsistent (gate out.1.1.1) × Charged (outcome_of out.0).status out.1.1.1
    unfolding outcome_of
    by_outcome (ok o, (b, (c, x))) h = (h.0, go o.status)
      where
        go : (st : Status) → Charged st x
        go success = h.1
        go failed = at_most_once x h.0
        go unknown = at_most_once x h.0
    by_outcome (err (raised (gateway_declined n)), (b, (c, x))) h = (h, at_most_once x h)
    by_outcome (err (raised gateway_unavailable), (b, (c, x))) h = (h, at_most_once x h)
    by_outcome (err (retries_exhausted e), (b, (c, x))) h = (h, at_most_once x h)
    by_outcome (err circuit_open, (b, (c, x))) h = (h, at_most_once x h)
    by_outcome (err bulkhead_full, (b, (c, x))) h = (h, at_most_once x h)

    -- Requests to the gateway that run one after another, from consistent books, whatever replies
    -- are lost and however often they are retried: a charge that reports SUCCESS left the order's
    -- key charged exactly once, any other left it charged at most once, and the books stay
    -- consistent for every key.
    pub charge-Charged :
        (g : Guarded X)
        → IsConsistent (gate g.1.1)
        → let (outcome, g') = Gateway.charge setup post order_id amount g in
          IsConsistent (gate g'.1.1) × Charged outcome.status g'.1.1
    unfolding Gateway.charge
    charge-Charged (b, (c, x)) v =
        by_outcome
          (protected_call setup is_unavailable
            (post_charge post order_id amount (order_key order_id)) (b, (c, x)))
          (protected_call-Post setup is_unavailable
            (post_charge post order_id amount (order_key order_id)) Sound Once rule b c x v)
      where
        rule :
            IsRule setup.timing (post_charge post order_id amount (order_key order_id)) Sound Once
        rule = record {
          uniform = λ d x v. subst IsConsistent (sym (laws.gate-IsApart.part-uniform d x)) v;
          sleep = λ d x v. subst IsConsistent (sym (laws.gate-IsApart.part-sleep d x)) v;
          attempt = post_charge-Post;
        }
