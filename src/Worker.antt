-- ===== src/Worker.antt =====
-- app/worker.py: parsing, the fan-out to the handlers, and what becomes of a message.
pub mod Fanout
pub mod Deletion
pub mod Delivery
pub mod Budget
pub mod Race
pub mod Lease
mod Tests
use commerceops_ai_platform.Base.{
  ⊤, ℕ, zero, suc, ◌+◌, Bool, true, false, Option, none, some, String, List, [], ◌∷◌, contains,
  length, if◌then◌else◌, Result, ok, err, Exec,
}
use commerceops_ai_platform.Reliability.{Failure}
use commerceops_ai_platform.Reliability.Retry.{Timing, Policy, retry_with_backoff}
use commerceops_ai_platform.Cache.{Redis}
use commerceops_ai_platform.Idempotency
use commerceops_ai_platform.Idempotency.{
  EventKey, Store, acquire_lease, release_lease, completed_handlers, record_handler_done,
}
use commerceops_ai_platform.Queue.{
  Sqs, Queues, Message, AwsError, resolve_queue_url, send_to, on_sqs,
}

-- A body by what `json.loads` makes of it and which of the three keys an object has.
pub data Body (P : Type 0) : Type 0 where
  not_json : Body P
  not_object : Body P
  object : (event_id event_type : Option String) (payload : Option P) → Body P

-- `PoisonMessage`, which stands for the `ValueError`, `TypeError` or `KeyError` behind it.
pub data Poison : Type 0 where
  poison : Poison

unfoldable pub parse : {P : Type 0} → Body P → Result Poison (String × String × P)
parse not_json = err poison
parse not_object = err poison
parse (object (some event_id) (some event_type) (some payload)) = ok (event_id, event_type, payload)
parse (object _ _ _) = err poison

-- An entry of `HANDLERS`, over the state `X` that the handlers change.
pub record Handler (X P E : Type 0) : Type 0 where
  pub name : String
  pub run : String → P → X → Result E ⊤ × X

pub record Config : Type 0 where
  pub idempotency : Idempotency.Settings
  pub retry : Policy
  pub sqs_queue_name : String
  pub sqs_dlq_name : String
  pub sqs_visibility_timeout_seconds : ℕ

-- Postgres and Redis, SQS, and what the handlers change.
pub record World (C Q X : Type 0) : Type 0 where
  pub store : Store C
  pub queues : Queues Q
  pub outside : X

module _ {C Q X P E : Type 0} (r : Redis C EventKey (List String)) (client : Sqs Q (Body P))
    (timing : Timing X) (config : Config) (handlers : List (Handler X P E)) where
  open config use {idempotency, retry, sqs_queue_name, sqs_dlq_name, sqs_visibility_timeout_seconds}

  -- What follows a handler's retries: the record, or nothing but its name among the outstanding.
  abbrev pub settle :
      String → String → String → Store C → Result (Failure E) ⊤ × X → Option String × (Store C × X)
  settle event_id event_type name s (ok done, x) =
      (none, (record_handler_done r idempotency event_id event_type name s, x))
  settle event_id event_type name s (err e, x) = (some name, (s, x))

  -- The body of the loop of `process_event`; `some` is a handler left outstanding.
  pub visit :
      List String
      → String
      → String
      → P
      → Handler X P E
      → Store C × X
      → Option String × (Store C × X)
  visit already_done event_id event_type payload h (s, x) =
      if contains h.name already_done
      then (none, (s, x))
      else settle event_id event_type h.name s
          (retry_with_backoff timing retry (λ e. true) (h.run event_type payload) x)

  abbrev pub cons_option : Option String → List String → List String
  cons_option none names = names
  cons_option (some name) names = name ∷ names

  pub visit_all :
      List String
      → String
      → String
      → P
      → List (Handler X P E)
      → Store C × X
      → List String × (Store C × X)
  unfolding visit
  visit_all already_done event_id event_type payload [] w = ([], w)
  visit_all already_done event_id event_type payload (h ∷ hs) w =
      let (o, w') = visit already_done event_id event_type payload h w in
      let (names, w'') = visit_all already_done event_id event_type payload hs w' in
      (cons_option o names, w'')

  unfoldable pub process_event : String → String → P → Store C × X → List String × (Store C × X)
  unfolding visit_all
  process_event event_id event_type payload (s, x) =
      let (already_done, s') = completed_handlers r idempotency event_id s in
      visit_all already_done event_id event_type payload handlers (s', x)

  -- Best-effort: a failed call is logged.
  pub extend_visibility : String → String → Queues Q → Queues Q
  extend_visibility url receipt q =
      (on_sqs client (client.change_message_visibility url receipt sqs_visibility_timeout_seconds)
        q).1

  -- `_send_to_dlq`, which raises again what it catches.
  pub send_to_dlq : Body P → Exec (Queues Q) AwsError ⊤
  send_to_dlq body = send_to client sqs_dlq_name body

  pub delete_message : String → String → Exec (Queues Q) AwsError ⊤
  delete_message url receipt = on_sqs client (client.delete_message url receipt)

  -- The branch of a poison message: to the DLQ, then off the queue.
  pub handle_poison : String → Message (Body P) → Exec (Queues Q) AwsError ⊤
  unfolding send_to_dlq delete_message
  handle_poison url m q =
      let (r1, q') = send_to_dlq m.body q in
      elim r1 [ ok sent ↦ delete_message url m.receipt_handle q' | err e ↦ (err e, q') ]

  -- What follows `process_event`: the lease is given up where handlers are outstanding.
  pub conclude :
      String → String → String → List String → World C Q X → Result AwsError ⊤ × World C Q X
  unfolding delete_message
  conclude url receipt event_id [] w =
      let (done, q) = delete_message url receipt w.queues in (done, record w { queues = q })
  conclude url receipt event_id (name ∷ names) w =
      (ok tt, record w { store = release_lease r idempotency event_id w.store })

  -- The branch of a message that parsed.
  pub handle_event :
      String → String → String → String → P → World C Q X → Result AwsError ⊤ × World C Q X
  unfolding extend_visibility process_event conclude
  handle_event url receipt event_id event_type payload w =
      let (granted, s) = acquire_lease r idempotency event_id w.store in
      let queues = extend_visibility url receipt w.queues in
      let (outstanding, (s', x)) = process_event event_id event_type payload (s, w.outside) in
      let rest =
        conclude url receipt event_id outstanding
          (record { store = s'; queues = queues; outside = x }) in
      if granted then rest else (ok tt, record w { store = s })

  abbrev pub dispatch :
      Result Poison (String × String × P)
      → String
      → Message (Body P)
      → World C Q X
      → Result AwsError ⊤ × World C Q X
  dispatch (err e) url m w =
      let (done, q) = handle_poison url m w.queues in (done, record w { queues = q })
  dispatch (ok (event_id, event_type, payload)) url m w =
      handle_event url m.receipt_handle event_id event_type payload w

  unfoldable pub handle_message :
      String → Message (Body P) → World C Q X → Result AwsError ⊤ × World C Q X
  unfolding handle_poison handle_event parse
  handle_message url m w = dispatch (parse m.body) url m w

  -- The loop of `poll_once`: an exception of one message is logged.
  pub handle_batch : String → List (Message (Body P)) → World C Q X → World C Q X
  unfolding handle_message
  handle_batch url [] w = w
  handle_batch url (m ∷ ms) w = handle_batch url ms (handle_message url m w).1

  abbrev received :
      String → Result AwsError (List (Message (Body P))) → World C Q X → ℕ × World C Q X
  received url (ok messages) w = (length messages, handle_batch url messages w)
  received url (err e) w = (0, w)

  -- The URL is resolved outside the `try`, so that a failure there is raised.
  unfoldable pub poll_once : ℕ → World C Q X → Result AwsError ℕ × World C Q X
  unfolding handle_batch
  poll_once max_messages w =
      let (url, q) = resolve_queue_url client sqs_queue_name w.queues in
      elim url [
        | err e ↦ (err e, record w { queues = q })
        | ok u ↦
            (let (batch, q') = on_sqs client (client.receive_message u max_messages) q in
              let (n, w') = received u batch (record w { queues = q' }) in (ok n, w'))
      ]

  -- `run_worker(max_iterations)`; `poll_once` takes ten messages by default.
  unfoldable pub run_worker : ℕ → World C Q X → Result AwsError ⊤ × World C Q X
  unfolding poll_once
  run_worker zero w = (ok tt, w)
  run_worker (suc n) w =
      let (r1, w') = poll_once 10 w in elim r1 [ ok count ↦ run_worker n w' | err e ↦ (err e, w') ]
