-- ===== src/Queue/Tests.antt =====
-- A publish on a queue whose first send fails.
use commerceops_ai_platform.Base.{
  ⊤, ℕ, zero, suc, ◌≡◌, refl, true, some, String, [], Result, ok, err,
}
use commerceops_ai_platform.Reliability.Retry.{Timing, Policy, retry_with_backoff}
use commerceops_ai_platform.Queue.{Sqs, Queues, AwsError, aws_error, publish_event}

-- The state is the number of sends that still fail.
abbrev sent : ℕ → Result AwsError ⊤ × ℕ
sent zero = (ok tt, zero)
sent (suc n) = (err aws_error, n)

abbrev flaky : Sqs ℕ String
flaky = record {
  get_queue_url = λ name q. (ok name, q);
  send_message = λ url body q. sent q;
  receive_message = λ url n q. (ok [], q);
  delete_message = λ url receipt q. (ok tt, q);
  change_message_visibility = λ url receipt n q. (ok tt, q);
}

abbrev timing : Timing (Queues ℕ)
timing = record { uniform = λ d s. (d, s); sleep = λ d s. s }

abbrev policy : Policy
policy = record { attempts = 3; base_delay = 100; multiplier = 2; max_delay = 300; jitter = true }

abbrev event_id : String
event_id = "e1"

abbrev start : Queues ℕ
start = record { url_cache = []; sqs = 1 }

published_test :
    publish_event flaky timing policy "events" event_id "body" start
    ≡ (some event_id, (publish_event flaky timing policy "events" event_id "body" start).1)
unfolding publish_event retry_with_backoff
published_test = refl
