-- ===== src/Payment/Service/Tests.antt =====
-- Concrete charges of one order.
use commerceops_ai_platform.Base.{ℕ, zero, suc, ◌+◌, ◌≤◌, ◌≡◌, refl, some, List, [], ◌∷◌, arith}
use commerceops_ai_platform.Payment.Data.{
  success, unknown, approved, retries_exhausted, GatewayOutcome, PaymentRequest,
}
use commerceops_ai_platform.Payment.Service.{Payment, find_payment}
use commerceops_ai_platform.Payment.Service.Stored.{count_rows}
use commerceops_ai_platform.Payment.Service.Race.{raised, advance, set, begun, step, run}
use commerceops_ai_platform.Payment.Service.Race.Fair.{turns, Settled, run-Settled}

-- The gateway's own count of the charges; it approves each.
abbrev gateway : ℕ → ℕ → ℕ → GatewayOutcome × ℕ
gateway order_id amount s =
    (record { status = success; transaction_id = some "t"; reason = approved }, s + 1)

abbrev order : ℕ → ℕ → PaymentRequest
order order_id amount = record { order_id = order_id; amount = amount }

-- Order 3 has its row.
abbrev rows : List Payment
rows =
    record {
      order_id = 3;
      status = unknown;
      transaction_id = "u";
      amount = 100;
      reason = retries_exhausted;
    }
    ∷ []

-- Two threads charge order 7 in lockstep, and a third answers with the row of order 3.
abbrev requests : ℕ → PaymentRequest
requests zero = order 7 500
requests (suc zero) = order 7 500
requests (suc (suc i)) = order 3 100

abbrev schedule : List ℕ
schedule = 0 ∷ 1 ∷ 2 ∷ 0 ∷ 1 ∷ 2 ∷ 0 ∷ 1 ∷ 2 ∷ []

unique : (m : ℕ) → count_rows m rows ≤ 1
unfolding count_rows
unique m = ground arith

both_charged : (run gateway (λ i. "u") requests schedule (begun (rows, 0))).db.1 ≡ 2
unfolding run step advance set begun find_payment
both_charged = refl

second_raised : (run gateway (λ i. "u") requests schedule (begun (rows, 0))).phase 1 ≡ raised
unfolding run step advance set begun find_payment
second_raised = refl

run-Settled_example :
    let after = run gateway (λ i. "u") requests schedule (begun (rows, 0)) in
    (count_rows 7 after.db.0 ≤ 1) × Settled (requests 1).order_id after.db.0 (after.phase 1)
unfolding turns
run-Settled_example =
    run-Settled gateway (λ i. "u") requests rows 0 schedule 1 7 unique (omega arith)
