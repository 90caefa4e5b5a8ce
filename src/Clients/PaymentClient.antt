-- ===== src/Clients/PaymentClient.antt =====
-- app/clients/payment_client.py: one attempt, and `charge` behind bulkhead, breaker and retry. The
-- HTTP client is a parameter.
pub mod Answers
mod Tests
use commerceops_ai_platform.Base.{ℕ, Bool, true, false, String, leb, if◌then◌else◌, Result, ok, err}
use commerceops_ai_platform.Reliability.{Failure}
use commerceops_ai_platform.Reliability.Failures
use commerceops_ai_platform.Reliability.Protected.{Guarded, Setup, protected_call}
use commerceops_ai_platform.Payment.{
  unknown, Reason, circuit_open, bulkhead_full, retries_exhausted, Reply, timed_out,
  transport_error, response, PaymentRequest, PaymentResult,
}

-- `PaymentServiceUnavailable`
pub data PaymentError : Type 0 where
  payment_unavailable : PaymentError

-- `_client.post("/payments", …)` over the state `S`.
abbrev pub Post : Type 0 → Type 0
Post S = PaymentRequest → S → Reply PaymentResult × S

-- `_charge_once` on what the request gave.
unfoldable pub read_payment : Reply PaymentResult → Result PaymentError PaymentResult
read_payment timed_out = err payment_unavailable
read_payment transport_error = err payment_unavailable
read_payment (response status_code result) =
    if leb 500 status_code
    then err payment_unavailable
    else if leb 400 status_code
    then err payment_unavailable
    else ok result

module _ {S : Type 0} (post : Post S) where
  unfoldable pub charge_once : PaymentRequest → S → Result PaymentError PaymentResult × S
  unfolding read_payment
  charge_once payload s = let (reply, s') = post payload s in (read_payment reply, s')

-- `retry_on=(PaymentServiceUnavailable,)`
abbrev pub is_unavailable : PaymentError → Bool
is_unavailable payment_unavailable = true

abbrev pub unconfirmed : PaymentRequest → Reason → PaymentResult
unconfirmed payload reason = record {
  order_id = payload.order_id;
  status = unknown;
  transaction_id = "";
  amount = payload.amount;
  reason = reason;
}

-- The `except` clauses of `charge`. A `PaymentServiceUnavailable` is always retried, so none comes raw.
unfoldable pub result_of :
    PaymentRequest → Result (Failure PaymentError) PaymentResult → PaymentResult
result_of payload (ok result) = result
result_of payload (err Failures.circuit_open) = unconfirmed payload circuit_open
result_of payload (err Failures.bulkhead_full) = unconfirmed payload bulkhead_full
result_of payload (err (Failures.retries_exhausted cause)) = unconfirmed payload retries_exhausted
result_of payload (err (Failures.raised payment_unavailable)) =
    unconfirmed payload retries_exhausted

module _ {S : Type 0} (setup : Setup S) (post : Post S) where
  unfoldable pub charge : PaymentRequest → Guarded S → PaymentResult × Guarded S
  unfolding result_of
  charge payload g =
      let (r, g') = protected_call setup is_unavailable (charge_once post payload) g in
      (result_of payload r, g')
