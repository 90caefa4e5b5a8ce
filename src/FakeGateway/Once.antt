-- ===== src/FakeGateway/Once.antt =====
-- A key is charged once, when requests do not overlap.
use commerceops_ai_platform.Base.{
  ℕ, ◌+◌, ◌≤◌, ◌≡◌, refl, ap, subst, Result, ok, inl, inr, true, false, Option, none, some,
  Option-cases, String, List, [], ◌∷◌, ◌++◌, str_eq, str_eq_self, if◌then◌else◌, arith, eq_iff,
}
use commerceops_ai_platform.Payment.{success, failed}
use commerceops_ai_platform.FakeGateway.{
  ChargeRequest, ChargeResponse, Draws, Gateway, Unavailable, find_charge, set_charge, key_of,
  lookup_step, finish_step, charge,
}

-- How often a key was charged.
unfoldable pub count_key : String → List String → ℕ
count_key key [] = 0
count_key key (k ∷ ks) = (if str_eq k key then 1 else 0) + count_key key ks

abbrev pub executed : String → Gateway → ℕ
executed key g = count_key key g.charge_attempts

-- A key was charged exactly once if a response is stored for it, and never otherwise.
abbrev pub IsConsistent : Gateway → Type 0
IsConsistent g =
    (key : String)
    → executed key g ≡ (elim (find_charge key g.charges) [ none ↦ 0 | some response ↦ 1 ])

count_key-append :
    (key k : String) (ks : List String)
    → count_key key (ks ++ k ∷ []) ≡ count_key key ks + (if str_eq k key then 1 else 0)
unfolding count_key
count_key-append key k [] = ground arith
count_key-append key k (x ∷ ks) = ground (arith, count_key-append key k ks)

find_charge-set_charge :
    (j k : String) (v : ChargeResponse) (cs : List (String × ChargeResponse))
    → find_charge j (set_charge k v cs) ≡ (if str_eq k j then some v else find_charge j cs)
unfolding find_charge set_charge
find_charge-set_charge j k v [] = refl
find_charge-set_charge j k v ((i, w) ∷ cs) =
    ground (arith, eq_iff k j, eq_iff i k, eq_iff i j, find_charge-set_charge j k v cs)

finish_step-IsConsistent :
    (key : String) (request : ChargeRequest) (d : Draws) (g : Gateway)
    → lookup_step key g ≡ none
    → IsConsistent g
    → IsConsistent (finish_step key request d g).1
unfolding lookup_step finish_step
finish_step-IsConsistent key request d g fresh v j =
    let reply : ChargeResponse = record {
      order_id = request.order_id;
      status = if d.approves then success else failed;
      transaction_id = d.transaction_id;
      amount = request.amount;
      replayed = false;
    } in
    ground (
      arith,
      v j,
      eq_iff key j,
      count_key-append j key g.charge_attempts,
      find_charge-set_charge j key reply g.charges,
    )

-- A request that no other overlaps keeps each key charged at most once, and exactly once where a
-- response is stored.
pub charge-IsConsistent :
    (idempotency_key : Option String) (request : ChargeRequest) (d : Draws) (g : Gateway)
    → IsConsistent g
    → IsConsistent (charge idempotency_key request d g).1
unfolding charge
charge-IsConsistent idempotency_key request d g v =
    elim (Option-cases (lookup_step (key_of idempotency_key d) g)) [
      | inl fresh ↦
          rw (fresh, charge)
            (finish_step-IsConsistent (key_of idempotency_key d) request d g fresh v)
      | inr (existing, found) ↦ rw (found, charge) v
    ]

-- No request lowers the count of a key.
pub executed-charge :
    (key : String) (idempotency_key : Option String) (request : ChargeRequest) (d : Draws)
    (g : Gateway)
    → executed key g ≤ executed key (charge idempotency_key request d g).1
unfolding charge lookup_step finish_step
executed-charge key idempotency_key request d g =
    ground (arith, count_key-append key (key_of idempotency_key d) g.charge_attempts)

-- Two requests under one key that is not stored yet, both past the first locked section of a
-- consistent store before either reaches the second, and with no 503 injected: the key is charged
-- twice.
pub overlapping_charges :
    (key : String) (request : ChargeRequest) (d d' : Draws) (g : Gateway)
    → lookup_step key g ≡ none
    → IsConsistent g
    → d.error ≡ false
    → d'.error ≡ false
    → executed key (finish_step key request d' (finish_step key request d g).1).1 ≡ 2
unfolding lookup_step finish_step
overlapping_charges key request d d' g fresh v e e' = ground (
  arith,
  v key,
  str_eq_self key,
  count_key-append key key g.charge_attempts,
  count_key-append key key (g.charge_attempts ++ key ∷ []),
)

finish_step-executed :
    (key : String) (request : ChargeRequest) (d : Draws) (g : Gateway) (a : ChargeResponse)
    (g' : Gateway)
    → lookup_step key g ≡ none
    → IsConsistent g
    → finish_step key request d g ≡ (ok a, g')
    → executed key g' ≡ 1
unfolding lookup_step finish_step
finish_step-executed key request d g a g' fresh v e =
    ground (arith, v key, str_eq_self key, count_key-append key key g.charge_attempts)

-- A request that is answered leaves its key charged exactly once.
pub charge_executed :
    (idempotency_key : Option String) (request : ChargeRequest) (d : Draws) (g : Gateway)
    (a : ChargeResponse) (g' : Gateway)
    → IsConsistent g
    → charge idempotency_key request d g ≡ (ok a, g')
    → executed (key_of idempotency_key d) g' ≡ 1
unfolding charge
charge_executed idempotency_key request d g a g' v e =
    elim (Option-cases (lookup_step (key_of idempotency_key d) g)) [
      | inl fresh ↦
          finish_step-executed (key_of idempotency_key d) request d g a g' fresh v
            (rw (fresh, charge) at e)
      | inr (existing, found) ↦ stored existing found (rw (found, charge) at e)
    ]
  where
    stored :
        (existing : ChargeResponse)
        → lookup_step (key_of idempotency_key d) g ≡ some existing
        → ◌≡◌ {A = Result Unavailable ChargeResponse × Gateway}
            (ok (record existing { replayed = true }), g)
            (ok a, g')
        → executed (key_of idempotency_key d) g' ≡ 1
    stored existing found same =
        subst (λ x. executed (key_of idempotency_key d) x ≡ 1) (ap (λ o. o.1) same)
          (unfold lookup_step in ground (arith, v (key_of idempotency_key d)))
