-- ===== src/Payment/Service/Race.antt =====
-- `charge` of app/payment/service.py by many threads. The SELECT, the call of the gateway and the
-- commit are one step each, and other threads run in between; the unique constraint of
-- app/payment/models.py decides the commit.
pub mod Fair
use commerceops_ai_platform.Base.{
  ℕ, ◌+◌, ◌-◌, ◌≤◌, ◌≡◌, refl, sym, ap, subst, true, inl, inr, Option, none, some, Option-cases,
  String, List, [], ◌∷◌, ◌++◌, ◌==◌, if◌then◌else◌, Bool-cases, arith,
}
use commerceops_ai_platform.Payment.Data.{GatewayOutcome, PaymentRequest, PaymentResult}
use commerceops_ai_platform.Payment.Service.{Payment, find_payment, row_of, store, charge}
use commerceops_ai_platform.Payment.Service.Stored.{
  count_rows, count_rows-append, count_rows_absent, find_payment-append,
}

-- Where a thread is in `charge`: before the SELECT, before the gateway's answer, before the commit,
-- returned, or raised with the `IntegrityError` that nothing catches.
pub data Phase : Type 0 where
  selecting charging : Phase
  storing : Payment → Phase
  answered : PaymentResult → Phase
  raised : Phase

module _ {S : Type 0} (gateway_charge : ℕ → ℕ → S → GatewayOutcome × S) where
  -- The three steps, by what they find.
  abbrev pub selected : Option Payment → Phase
  selected none = charging
  selected (some existing) = answered existing

  abbrev pub charged :
      String → PaymentRequest → List Payment → GatewayOutcome × S → Phase × (List Payment × S)
  charged uuid payload rows (outcome, s) = (storing (row_of uuid payload outcome), (rows, s))

  abbrev pub committed : Payment → Option Payment → List Payment → Phase × List Payment
  committed row none rows = (answered row, rows ++ row ∷ [])
  committed row (some other) rows = (raised, rows)

  unfoldable pub advance :
      String → PaymentRequest → Phase → List Payment × S → Phase × (List Payment × S)
  unfolding find_payment
  advance uuid payload selecting (rows, s) =
      (selected (find_payment payload.order_id rows), (rows, s))
  advance uuid payload charging (rows, s) =
      charged uuid payload rows (gateway_charge payload.order_id payload.amount s)
  advance uuid payload (storing row) (rows, s) =
      let (phase, rows') = committed row (find_payment row.order_id rows) rows in
      (phase, (rows', s))
  advance uuid payload (answered result) db = (answered result, db)
  advance uuid payload raised db = (raised, db)

-- The threads, by number, beside the database and the gateway.
pub record Threads (S : Type 0) : Type 0 where
  pub phase : ℕ → Phase
  pub db : List Payment × S

unfoldable pub set : ℕ → Phase → (ℕ → Phase) → ℕ → Phase
set i p phase j = if j == i then p else phase j

-- Threads that are about to begin.
unfoldable pub begun : {S : Type 0} → List Payment × S → Threads S
begun db = record { phase = λ i. selecting; db = db }

module _ {S : Type 0} (gateway_charge : ℕ → ℕ → S → GatewayOutcome × S) (uuid : ℕ → String)
    (requests : ℕ → PaymentRequest) where
  unfoldable pub step : ℕ → Threads S → Threads S
  unfolding advance set
  step i t =
      let (p, db) = advance gateway_charge (uuid i) (requests i) (t.phase i) t.db in
      record { phase = set i p t.phase; db = db }

  -- The threads that take the next steps, in turn.
  unfoldable pub run : List ℕ → Threads S → Threads S
  unfolding step
  run [] t = t
  run (i ∷ schedule) t = run schedule (step i t)
