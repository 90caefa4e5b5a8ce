-- ===== src/Worker/Race/Tests.antt =====
-- Two workers serve one event in lockstep.
use commerceops_ai_platform.Base.{⊤, ℕ, ◌+◌, ◌≡◌, refl, none, true, List, [], ◌∷◌, All, ok, arith}
use commerceops_ai_platform.Reliability.Retry.{Timing, retry_with_backoff}
use commerceops_ai_platform.Cache.{cache_get_json}
use commerceops_ai_platform.Idempotency.{Store, has_row, completed_handlers, record_handler_done}
use commerceops_ai_platform.Idempotency.OneKey.{Slot, one_key, Keeps, one_key-IsRedis}
use commerceops_ai_platform.Idempotency.Records.{IsSound}
use commerceops_ai_platform.Queue.{Sqs}
use commerceops_ai_platform.Worker.{Body, Handler, Config}
use commerceops_ai_platform.Worker.Race.{Shared, finished, Workers, set, advance, step, run, begun}
use commerceops_ai_platform.Worker.Race.Safe.{Ended, run-Ended}

abbrev timing : Timing ℕ
timing = record { uniform = λ d s. (d, s); sleep = λ d s. s }

abbrev config : Config
config = record {
  idempotency = record {
    cache_enabled = true;
    idempotency_lease_ttl_seconds = 60;
    sqs_idempotency_ttl_seconds = 86400;
  };
  retry = record { attempts = 2; base_delay = 100; multiplier = 2; max_delay = 300; jitter = true };
  sqs_queue_name = "events";
  sqs_dlq_name = "events-dlq";
  sqs_visibility_timeout_seconds = 60;
}

-- What is outside is the number of the emails that were sent.
abbrev email : Handler ℕ ℕ ℕ
email = record { name = "email"; run = λ event_type payload x. (ok tt, x + 1) }

abbrev empty : Store Slot
empty = record { rows = []; cache = none }

empty-IsSound : IsSound one_key config.idempotency Keeps one_key-IsRedis empty
empty-IsSound e n names h m = ground arith

abbrev schedule : List ℕ
schedule = 0 ∷ 1 ∷ 0 ∷ 1 ∷ 0 ∷ 1 ∷ 0 ∷ 1 ∷ []

abbrev finally : Workers Slot ℕ ℕ ℕ
finally =
    run one_key timing config (email ∷ []) "e1" "OrderCreated" 5 schedule
      (begun one_key timing config (email ∷ []) "e1" "OrderCreated" 5 empty 0)

-- One row, and two emails: the constraint protects the row and not the effect.
sent_twice : finally.shared.outside ≡ 2
unfolding run step advance set begun completed_handlers cache_get_json retry_with_backoff
    record_handler_done
sent_twice = refl

first_done : finally.phase 0 ≡ finished []
unfolding run step advance set begun completed_handlers cache_get_json retry_with_backoff
    record_handler_done
first_done = refl

run-Ended_example :
    All
      (Ended one_key timing config
        (email ∷ [])
        "e1"
        "OrderCreated"
        5
        Keeps
        one_key-IsRedis
        finally.shared
        [])
      (email ∷ [])
unfolding has_row
run-Ended_example =
    run-Ended one_key timing config (email ∷ []) "e1" "OrderCreated" 5 Keeps one_key-IsRedis empty 0
      schedule 0 [] finally.phase finally.shared empty-IsSound (λ n. refl) refl first_done

abbrev client : Sqs ⊤ (Body ℕ)
client = record {
  get_queue_url = λ name q. (ok name, q);
  send_message = λ url body q. (ok tt, q);
  receive_message = λ url n q. (ok [], q);
  delete_message = λ url receipt q. (ok tt, q);
  change_message_visibility = λ url receipt n q. (ok tt, q);
}

abbrev before : Shared Slot ℕ
before = record { store = empty; outside = 0; returned = [] }
