-- ===== src/Payment/Gateway.antt =====
-- app/payment/gateway_client.py: one attempt, and `charge` behind bulkhead, breaker and retry.
pub mod Answers
mod Tests
use commerceops_ai_platform.Base.{
  ℕ, Bool, true, false, Option, none, some, leb, if◌then◌else◌, Result, ok, err,
}
use commerceops_ai_platform.Reliability.{Failure}
use commerceops_ai_platform.Reliability.Failures
use commerceops_ai_platform.Reliability.Protected.{Guarded, Setup, protected_call}
use commerceops_ai_platform.Payment.Data.{
  Status, success, failed, unknown, Reason, approved, declined, circuit_open, bulkhead_full,
  retries_exhausted, http, GatewayOutcome, GatewayError, gateway_unavailable, gateway_declined,
  ChargeBody, Reply, timed_out, transport_error, response, IdempotencyKey, order_key,
}

-- `_client.post("/charge", …)` over the state `S`: order id, amount, idempotency key.
abbrev pub Post : Type 0 → Type 0
Post S = ℕ → ℕ → IdempotencyKey → S → Reply ChargeBody × S

abbrev pub is_success : Status → Bool
is_success success = true
is_success _ = false

-- `_post_charge` on what the request gave.
unfoldable pub read_reply : Reply ChargeBody → Result GatewayError GatewayOutcome
read_reply timed_out = err gateway_unavailable
read_reply transport_error = err gateway_unavailable
read_reply (response status_code body) =
    if leb 500 status_code
    then err gateway_unavailable
    else if leb 400 status_code
    then err (gateway_declined status_code)
    else if is_success body.status
    then ok (record { status = success; transaction_id = body.transaction_id; reason = approved })
    else ok (record { status = failed; transaction_id = body.transaction_id; reason = declined })

module _ {S : Type 0} (post : Post S) where
  unfoldable pub post_charge : ℕ → ℕ → IdempotencyKey → S → Result GatewayError GatewayOutcome × S
  unfolding read_reply
  post_charge order_id amount key s =
      let (reply, s') = post order_id amount key s in (read_reply reply, s')

-- `retry_on=(GatewayUnavailable,)`
abbrev pub is_unavailable : GatewayError → Bool
is_unavailable gateway_unavailable = true
is_unavailable (gateway_declined n) = false

abbrev unanswered : Reason → GatewayOutcome
unanswered reason = record { status = unknown; transaction_id = none; reason = reason }

-- The `except` clauses of `charge`. A `GatewayUnavailable` is always retried, so none comes raw.
unfoldable pub outcome_of : Result (Failure GatewayError) GatewayOutcome → GatewayOutcome
outcome_of (ok outcome) = outcome
outcome_of (err Failures.bulkhead_full) = unanswered bulkhead_full
outcome_of (err Failures.circuit_open) = unanswered circuit_open
outcome_of (err (Failures.raised (gateway_declined n))) = record {
  status = failed;
  transaction_id = none;
  reason = http n;
}
outcome_of (err (Failures.raised gateway_unavailable)) = unanswered retries_exhausted
outcome_of (err (Failures.retries_exhausted cause)) = unanswered retries_exhausted

module _ {S : Type 0} (setup : Setup S) (post : Post S) where
  unfoldable pub charge : ℕ → ℕ → Guarded S → GatewayOutcome × Guarded S
  unfolding outcome_of
  charge order_id amount g =
      let (r, g') =
        protected_call setup is_unavailable (post_charge post order_id amount (order_key order_id))
          g in
      (outcome_of r, g')
