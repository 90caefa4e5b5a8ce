-- ===== src/FakeGateway.antt =====
-- fake_gateway/main.py: the stand-in gateway and its idempotency store. What the server draws at
-- random for a request, and its UUIDs, are arguments. `charge` is a request that no other request
-- interrupts; `lookup_step` and `finish_step` are its two locked sections, for those that do.
pub mod Once
pub mod Chaos
mod Tests
use commerceops_ai_platform.Base.{
  ℕ, Bool, true, false, Option, none, some, String, List, [], ◌∷◌, ◌++◌, str_eq, length,
  if◌then◌else◌, Result, ok, err,
}
use commerceops_ai_platform.Payment.{Status, success, failed}

pub record ChargeRequest : Type 0 where
  pub order_id : ℕ
  pub amount : ℕ

pub record ChargeResponse : Type 0 where
  pub order_id : ℕ
  pub status : Status
  pub transaction_id : String
  pub amount : ℕ
  pub replayed : Bool

-- What a request draws: whether the 503 is injected, whether the issuer approves, and the two UUIDs.
pub record Draws : Type 0 where
  pub error : Bool
  pub approves : Bool
  pub anonymous_key : String
  pub transaction_id : String

-- `_charges` and `_charge_attempts`
pub record Gateway : Type 0 where
  pub charges : List (String × ChargeResponse)
  pub charge_attempts : List String

-- The `HTTPException` with status 503.
pub data Unavailable : Type 0 where
  unavailable : Unavailable

unfoldable pub find_charge : String → List (String × ChargeResponse) → Option ChargeResponse
find_charge key [] = none
find_charge key ((k, v) ∷ rest) = if str_eq k key then some v else find_charge key rest

-- `_charges[key] = response`
pub set_charge :
    String → ChargeResponse → List (String × ChargeResponse) → List (String × ChargeResponse)
set_charge key v [] = (key, v) ∷ []
set_charge key v ((k, w) ∷ rest) =
    if str_eq k key then (k, v) ∷ rest else (k, w) ∷ set_charge key v rest

-- `idempotency_key or f"anonymous:{uuid}"`; the drawn key is that text, prefix included.
abbrev pub key_of : Option String → Draws → String
key_of none d = d.anonymous_key
key_of (some String.[]) d = d.anonymous_key
key_of (some (String.◌∷◌ c s)) d = String.◌∷◌ c s

-- The first locked section.
unfoldable pub lookup_step : String → Gateway → Option ChargeResponse
unfolding find_charge
lookup_step key g = find_charge key g.charges

-- What follows where nothing was found; it ends in the second locked section. Latency and hanging
-- only let time pass.
unfoldable pub finish_step :
    String → ChargeRequest → Draws → Gateway → Result Unavailable ChargeResponse × Gateway
unfolding set_charge
finish_step key request d g =
    let reply : ChargeResponse = record {
      order_id = request.order_id;
      status = if d.approves then success else failed;
      transaction_id = d.transaction_id;
      amount = request.amount;
      replayed = false;
    } in
    if d.error then (err unavailable, g) else (
      ok reply,
      record {
        charges = set_charge key reply g.charges;
        charge_attempts = g.charge_attempts ++ key ∷ [];
      },
    )

unfoldable pub charge :
    Option String → ChargeRequest → Draws → Gateway → Result Unavailable ChargeResponse × Gateway
unfolding lookup_step finish_step
charge idempotency_key request d g =
    let key = key_of idempotency_key d in
    elim (lookup_step key g) [
      | some existing ↦ (ok (record existing { replayed = true }), g)
      | none ↦ finish_step key request d g
    ]

unfoldable pub reset : Gateway → Gateway
reset g = record { charges = []; charge_attempts = [] }

-- `list_charges`: distinct keys and executed charges.
unfoldable pub list_charges : Gateway → ℕ × ℕ
list_charges g = (length g.charges, length g.charge_attempts)
