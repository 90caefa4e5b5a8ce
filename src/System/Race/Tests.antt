-- ===== src/System/Race/Tests.antt =====
-- Two threads charge order 7 in lockstep, and the gateway's first reply is lost.
use commerceops_ai_platform.Base.{ℕ, ◌≤◌, ◌≡◌, refl, List, [], ◌∷◌, arith}
use commerceops_ai_platform.Reliability.Breaker
use commerceops_ai_platform.Reliability.Bulkhead
use commerceops_ai_platform.Reliability.Protected.{Guarded, protected_call}
use commerceops_ai_platform.Reliability.Retry.{pause, retry_with_backoff}
use commerceops_ai_platform.Payment.{success, approved, PaymentRequest, PaymentResult}
use commerceops_ai_platform.Payment.Gateway
use commerceops_ai_platform.Payment.Service.{find_payment}
use commerceops_ai_platform.Payment.Service.Stored.{count_rows}
use commerceops_ai_platform.Payment.Service.Race.{answered, Threads, set, advance, step, run, begun}
use commerceops_ai_platform.FakeGateway
use commerceops_ai_platform.FakeGateway.{Gateway}
use commerceops_ai_platform.System.Payments.{IsBacked}
use commerceops_ai_platform.System.Race.{times, owed, race_charged_once}
use commerceops_ai_platform.System.Tests.{
  setup, text_of, draws, post, guarded, post-IsSequential, empty-IsConsistent,
}

abbrev request : PaymentRequest
request = record { order_id = 7; amount = 500 }

abbrev schedule : List ℕ
schedule = 0 ∷ 1 ∷ 0 ∷ 1 ∷ 0 ∷ 1 ∷ []

abbrev ended : Threads (Guarded Gateway)
ended = run (Gateway.charge setup post) (λ i. "u") (λ i. request) schedule (begun ([], guarded))

abbrev result : PaymentResult
result = record {
  order_id = 7;
  status = success;
  transaction_id = "t1";
  amount = 500;
  reason = approved;
}

first_answered : ended.phase 0 ≡ answered result
unfolding run step advance set begun find_payment Gateway.charge Gateway.post_charge protected_call
    Bulkhead.call Bulkhead.init Breaker.call Breaker.init retry_with_backoff pause
    FakeGateway.charge
first_answered = refl

no_rows : (m : ℕ) → count_rows m [] ≤ 1
unfolding count_rows
no_rows m = omega arith

guarded-IsBacked :
    IsBacked
      (λ g. g)
      (λ g. draws)
      text_of
      (λ n d. refl)
      setup
      post
      post-IsSequential
      0
      0
      ([], guarded)
unfolding find_payment
guarded-IsBacked = record {
  consistent = empty-IsConsistent;
  backed = λ n. omega arith;
  grown = omega arith;
}

race_charged_once_example :
    (times (λ g. g) (λ g. draws) text_of (λ n d. refl) setup post post-IsSequential 3 ended.db.1
      ≤ 1)
    × (owed (λ g. g) (λ g. draws) text_of (λ n d. refl) setup post post-IsSequential (ended.phase 0)
        ≤ times
            (λ g. g)
            (λ g. draws)
            text_of
            (λ n d. refl)
            setup
            post
            post-IsSequential
            7
            ended.db.1)
race_charged_once_example =
    race_charged_once (λ g. g) (λ g. draws) text_of (λ n d. refl) setup post post-IsSequential
      (λ i. "u") (λ i. request) [] guarded schedule 0 3 ended.phase ended.db no_rows
      guarded-IsBacked refl
