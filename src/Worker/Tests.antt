-- ===== src/Worker/Tests.antt =====
-- One message with two handlers, of which one fails, and one that is no JSON.
use commerceops_ai_platform.Base.{
  ℕ, ◌+◌, ◌≡◌, refl, subst, ◌⊎◌, inl, true, none, some, String, List, [], ◌∷◌, All, contains, ok,
  err, arith,
}
use commerceops_ai_platform.Reliability.Retry.{Timing, retry_with_backoff}
use commerceops_ai_platform.Cache.{cache_get_json, cache_set_if_absent}
use commerceops_ai_platform.Idempotency.{
  Store, handlers_done, has_row, acquire_lease, completed_handlers, record_handler_done,
}
use commerceops_ai_platform.Idempotency.OneKey.{Slot, one_key, Keeps, one_key-IsRedis}
use commerceops_ai_platform.Idempotency.Records.{IsSound}
use commerceops_ai_platform.Queue.{Sqs, Message, send_to, resolve_queue_url}
use commerceops_ai_platform.Queue.Laws.{IsSqs}
use commerceops_ai_platform.Queue.Sent.{IsSending, IsSentTo, nil-IsKnown}
use commerceops_ai_platform.Worker.{
  Body, not_json, object, parse, Handler, Config, World, process_event, handle_message,
}
use commerceops_ai_platform.Worker.Fanout.{Settled, process_event-Settled}
use commerceops_ai_platform.Settings.{defaults, worker_config}
use commerceops_ai_platform.Worker.Budget.{Spent, process_event_budget}
use commerceops_ai_platform.Reliability.Retry.Budget.{IsMetered}
use commerceops_ai_platform.Worker.Delivery.{handle_message_completes, process_event_idle}
use commerceops_ai_platform.Worker.Deletion.{handle_message_deletes, handle_poison_deletes}

-- The state of the queue is the receipts of the deleted messages.
abbrev client : Sqs (List String) (Body ℕ)
client = record {
  get_queue_url = λ name q. (ok name, q);
  send_message = λ url body q. (ok tt, q);
  receive_message = λ url n q. (ok [], q);
  delete_message = λ url receipt q. (ok tt, receipt ∷ q);
  change_message_visibility = λ url receipt n q. (ok tt, q);
}

abbrev Gone : List String → String → Type 0
Gone q receipt = contains receipt q ≡ true

client-IsSqs : IsSqs client Gone
client-IsSqs = record {
  deleted-get_queue_url = λ name receipt q h. h;
  deleted-send_message = λ url receipt b q h. h;
  deleted-change_message_visibility = λ url other receipt n q h. h;
}

abbrev timing : Timing ℕ
timing = record { uniform = λ d s. (d, s); sleep = λ d s. s }

abbrev config : Config
config = record {
  idempotency = record {
    cache_enabled = true;
    idempotency_lease_ttl_seconds = 60;
    sqs_idempotency_ttl_seconds = 86400;
  };
  retry = record { attempts = 2; base_delay = 100; multiplier = 2; max_delay = 300; jitter = true };
  sqs_queue_name = "events";
  sqs_dlq_name = "events-dlq";
  sqs_visibility_timeout_seconds = 60;
}

abbrev billing : Handler ℕ ℕ ℕ
billing = record { name = "billing"; run = λ event_type payload x. (ok tt, x + payload) }

abbrev broken : Handler ℕ ℕ ℕ
broken = record { name = "audit"; run = λ event_type payload x. (err 1, x) }

abbrev start : World Slot (List String) ℕ
start = record {
  store = record { rows = []; cache = none };
  queues = record { url_cache = []; sqs = [] };
  outside = 0;
}

start-IsSound : IsSound one_key config.idempotency Keeps one_key-IsRedis start.store
start-IsSound e n names h m = ground arith

abbrev message : Message (Body ℕ)
message = record {
  body = object (some "e1") (some "order.created") (some 5);
  receipt_handle = "r1";
}

abbrev garbage : Message (Body ℕ)
garbage = record { body = not_json; receipt_handle = "r2" }

-- With the broken handler the message stays, and what billing did is recorded.
stays_test :
    (handle_message one_key client timing config
      (billing ∷ broken ∷ [])
      "url"
      message
      start).1.queues.sqs
    ≡ []
unfolding handle_message process_event completed_handlers cache_get_json retry_with_backoff
    acquire_lease cache_set_if_absent record_handler_done
stays_test = refl

abbrev handled : World Slot (List String) ℕ
handled = (handle_message one_key client timing config (billing ∷ []) "url" message start).1

handled-Gone : Gone handled.queues.sqs "r1"
unfolding handle_message process_event completed_handlers cache_get_json retry_with_backoff
    acquire_lease cache_set_if_absent record_handler_done
handled-Gone = refl

handle_message_deletes_example :
    All (λ h. has_row "e1" h.name handled.store.rows ≡ true) (billing ∷ [])
unfolding parse
handle_message_deletes_example =
    handle_message_deletes one_key client timing config (billing ∷ []) Keeps one_key-IsRedis Gone
      client-IsSqs "url" message start "e1" "order.created" 5 refl start-IsSound (λ h. ground arith)
      handled-Gone

-- An SQS with the receipts of the deleted messages and what was sent; a queue's URL is its name.
abbrev sender : Sqs (List String × List (String × Body ℕ)) (Body ℕ)
sender = record {
  get_queue_url = λ name q. (ok name, q);
  send_message = λ url body q. (ok tt, (q.0, (url, body) ∷ q.1));
  receive_message = λ url n q. (ok [], q);
  delete_message = λ url receipt q. (ok tt, (receipt ∷ q.0, q.1));
  change_message_visibility = λ url receipt n q. (ok tt, q);
}

abbrev Off : List String × List (String × Body ℕ) → String → Type 0
Off q receipt = Gone q.0 receipt

sender-IsSqs : IsSqs sender Off
sender-IsSqs = record {
  deleted-get_queue_url = λ name receipt q h. h;
  deleted-send_message = λ url receipt b q h. h;
  deleted-change_message_visibility = λ url other receipt n q h. h;
}

abbrev In : List (String × Body ℕ) → String → Body ℕ → Type 0
In [] url b = ⊥
In ((u, c) ∷ rest) url b = ((u ≡ url) × (c ≡ b)) ⊎ In rest url b

abbrev Put : List String × List (String × Body ℕ) → String → Body ℕ → Type 0
Put q url b = In q.1 url b

abbrev Named : String → String → Type 0
Named name url = name ≡ url

sender-IsSending : IsSending sender Named Put
sender-IsSending = record {
  get_queue_url-names = λ name url q q' e. ground (arith, e);
  send_message-sends = λ url b q q' e. subst (λ o. In o.1.1 url b) e (inl (refl, refl));
  sent-delete_message = λ own receipt url b q h. h;
}

abbrev begins : World Slot (List String × List (String × Body ℕ)) ℕ
begins = record {
  store = record { rows = []; cache = none };
  queues = record { url_cache = []; sqs = ([], []) };
  outside = 0;
}

abbrev parked : World Slot (List String × List (String × Body ℕ)) ℕ
parked = (handle_message one_key sender timing config (billing ∷ []) "url" garbage begins).1

garbage-Off : Off parked.queues.sqs "r2"
unfolding handle_message send_to resolve_queue_url
garbage-Off = refl

handle_poison_deletes_example :
    IsSentTo sender Named Put sender-IsSending "events-dlq" not_json parked.queues.sqs
unfolding parse
handle_poison_deletes_example =
    handle_poison_deletes one_key sender timing config (billing ∷ []) Keeps one_key-IsRedis Off
      sender-IsSqs Named Put sender-IsSending "url" garbage begins refl (nil-IsKnown Named)
      (λ h. ground arith) garbage-Off

abbrev processed : List String × (Store Slot × ℕ)
processed =
    process_event one_key client timing config (billing ∷ broken ∷ []) "e1" "order.created" 5
      (start.store, 0)

process_event-Settled_example :
    IsSound one_key config.idempotency Keeps one_key-IsRedis processed.1.0
    × All
        (Settled one_key client timing config
          (billing ∷ broken ∷ [])
          Keeps
          one_key-IsRedis
          "e1"
          processed.1.0
          processed.0)
        (billing ∷ broken ∷ [])
process_event-Settled_example =
    process_event-Settled one_key client timing config (billing ∷ broken ∷ []) Keeps one_key-IsRedis
      "e1" "order.created" 5 start.store 0 start-IsSound

-- Billing is done already.
abbrev billed : Store Slot
billed = record {
  rows = record { event_id = "e1"; handler_name = "billing"; event_type = "order.created" } ∷ [];
  cache = none;
}

-- Redis has the set, and another handler is in it.
abbrev cached : Store Slot
cached = record billed { cache = some (handlers_done "e1", "audit" ∷ "billing" ∷ []) }

process_event_idle_example :
    let read = (completed_handlers one_key config.idempotency "e1" cached).1 in
    (process_event one_key client timing config (billing ∷ []) "e1" "order.created" 5 (cached, 0)
      ≡ ([], (read, 0)))
    × (read.rows ≡ cached.rows)
process_event_idle_example =
    process_event_idle one_key client timing config (billing ∷ []) "e1" "order.created" 5 cached 0
      listed (billed_row, tt)
  where
    listed :
        (names : List String)
        → (cache_get_json one_key true (handlers_done "e1") cached.cache).0 ≡ some names
        → All (λ h. contains h.name names ≡ true) (billing ∷ [])
    listed names e =
        let same : "audit" ∷ "billing" ∷ [] ≡ names = unfold cache_get_json in ground (arith, e) in
        (subst (λ n. contains "billing" n ≡ true) same refl, tt)

    billed_row : has_row "e1" "billing" cached.rows ≡ true
    billed_row = unfold has_row in refl

handle_message_completes_example : Gone handled.queues.sqs "r1"
unfolding parse
handle_message_completes_example =
    handle_message_completes one_key client timing config (billing ∷ []) Gone "url" message start
      "e1" "order.created" 5 (omega arith) refl granted ((λ x. refl), tt) (λ q. refl)
  where
    granted : (acquire_lease one_key config.idempotency "e1" start.store).0 ≡ true
    granted = unfold acquire_lease cache_set_if_absent in refl

-- Calls and the time slept, under the settings that the platform starts with.
abbrev clocked : Timing (ℕ × ℕ)
clocked = record { uniform = λ d x. (d, x); sleep = λ d x. (x.0, x.1 + d) }

abbrev failing : Handler (ℕ × ℕ) ℕ ℕ
failing = record { name = "search"; run = λ event_type payload x. (err 1, (x.0 + 1, x.1)) }

failing-IsMetered : IsMetered clocked (failing.run "order.created" 5) (λ x. x.0) (λ x. x.1)
failing-IsMetered = record {
  uniform-le = λ d x. omega arith;
  calls-uniform = λ d x. refl;
  slept-uniform = λ d x. refl;
  calls-sleep = λ d x. refl;
  slept-sleep = λ d x. refl;
  calls-fn = λ x. refl;
  slept-fn = λ x. refl;
}

process_event_budget_example :
    Spent one_key client clocked
      (worker_config defaults)
      (failing ∷ [])
      (λ x. x.0)
      (λ x. x.1)
      "e1"
      "order.created"
      5
      1
      (0, 0)
      (process_event one_key client clocked
        (worker_config defaults)
        (failing ∷ [])
        "e1"
        "order.created"
        5
        (start.store, (0, 0))).1.1
process_event_budget_example =
    process_event_budget one_key client clocked (worker_config defaults) (failing ∷ []) (λ x. x.0)
      (λ x. x.1) "e1" "order.created" 5 start.store (0, 0) (omega arith) (failing-IsMetered, tt)
