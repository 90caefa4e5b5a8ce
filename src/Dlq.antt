-- ===== src/Dlq.antt =====
-- app/dlq.py: inspecting, redriving and purging the dead-letter queue. SQS is a parameter, and so is
-- `json.loads`.
pub mod Ends
pub mod Keeps
mod Tests
use commerceops_ai_platform.Base.{
  ⊤, ℕ, zero, suc, ◌+◌, ◌-◌, min, Bool, true, false, Option, none, some, String, List, [], ◌∷◌, map,
  ltb, if◌then◌else◌, Result, ok, err, Exec, pure, ◌>>=◌,
}
use commerceops_ai_platform.Queue.{Sqs, Queues, Message, AwsError, resolve_queue_url, on_sqs}

-- The client, with the calls that only this tool makes. The attributes are the two approximate
-- counts, where the answer has them; `peek` is `receive_message` with `VisibilityTimeout=0`.
pub record Tool (Q B : Type 0) : Type 0 where
  pub client : Sqs Q B
  pub get_queue_attributes : String → Q → Result AwsError (Option ℕ × Option ℕ) × Q
  pub peek : String → ℕ → Q → Result AwsError (List (Message B)) × Q
  pub purge_queue : String → Q → Result AwsError ⊤ × Q

pub record Names : Type 0 where
  pub sqs_queue_name : String
  pub sqs_dlq_name : String

pub record Depth : Type 0 where
  pub visible : ℕ
  pub in_flight : ℕ

-- An entry of the sample: the parsed body, or the start of one that is no JSON.
pub data Sample (J B : Type 0) : Type 0 where
  parsed : J → Sample J B
  unparseable_body : B → Sample J B

pub record Inspection (J B : Type 0) : Type 0 where
  pub queue : String
  pub depth : Depth
  pub sample : List (Sample J B)

pub record Redriven : Type 0 where
  pub moved : ℕ
  pub failed : ℕ

-- `attributes.get(name, 0)`
abbrev pub or_zero : Option ℕ → ℕ
or_zero none = 0
or_zero (some n) = n

module _ {Q B : Type 0} (tool : Tool Q B) (names : Names) where
  open tool use {client, get_queue_attributes, peek, purge_queue}
  open names use {sqs_queue_name, sqs_dlq_name}

  unfoldable pub queue_depth : String → Exec (Queues Q) AwsError Depth
  queue_depth queue_name = do
    url ← resolve_queue_url client queue_name
    attributes ← on_sqs client (get_queue_attributes url)
    pure (record { visible = or_zero attributes.0; in_flight = or_zero attributes.1 })

  -- `json.loads(body)`, and `body[:500]` where it raises.
  abbrev pub shown : {J : Type 0} → (B → Option J) → (B → B) → Message B → Sample J B
  shown loads first_500 m = elim (loads m.body) [
    | none ↦ unparseable_body (first_500 m.body)
    | some j ↦ parsed j
  ]

  abbrev pub sampled : ℕ → String → Exec (Queues Q) AwsError (List (Message B))
  sampled sample url = if ltb 0 sample then on_sqs client (peek url (min sample 10)) else pure []

  unfoldable pub inspect :
      {J : Type 0} → (B → Option J) → (B → B) → ℕ → Exec (Queues Q) AwsError (Inspection J B)
  unfolding queue_depth
  inspect loads first_500 sample = do
    url ← resolve_queue_url client sqs_dlq_name
    depth ← queue_depth sqs_dlq_name
    messages ← sampled sample url
    pure (record {
      queue = sqs_dlq_name;
      depth = depth;
      sample = map (shown loads first_500) messages;
    })

  unfoldable pub purge : Exec (Queues Q) AwsError String
  purge = do
    url ← resolve_queue_url client sqs_dlq_name
    _ ← on_sqs client (purge_queue url)
    pure sqs_dlq_name

module _ {Q B : Type 0} (client : Sqs Q B) (main_url dlq_url : String) where
  -- A deleted message is counted; what `delete_message` raises is raised.
  abbrev pub moved_or_raised : Redriven → Result AwsError ⊤ × Q → Result AwsError Redriven × Q
  moved_or_raised counts (ok deleted, q) = (ok (record counts { moved = counts.moved + 1 }), q)
  moved_or_raised counts (err e, q) = (err e, q)

  -- What follows the sending of a message: a failure is counted and the message stays in its queue;
  -- otherwise it is deleted there.
  abbrev pub moved_or_failed :
      Message B → Redriven → Result AwsError ⊤ × Q → Result AwsError Redriven × Q
  moved_or_failed m counts (err e, q) = (ok (record counts { failed = counts.failed + 1 }), q)
  moved_or_failed m counts (ok sent, q) =
      moved_or_raised counts (client.delete_message dlq_url m.receipt_handle q)

  -- The body of the `for` loop of `redrive`.
  unfoldable pub redrive_one : Message B → Redriven → Q → Result AwsError Redriven × Q
  redrive_one m counts q = moved_or_failed m counts (client.send_message main_url m.body q)

  abbrev pub goes_on :
      (Redriven → Q → Result AwsError Redriven × Q)
      → Result AwsError Redriven × Q
      → Result AwsError Redriven × Q
  goes_on next (ok counts, q) = next counts q
  goes_on next (err e, q) = (err e, q)

  -- The `for` loop.
  unfoldable pub redrive_batch : List (Message B) → Redriven → Q → Result AwsError Redriven × Q
  redrive_batch [] counts q = (ok counts, q)
  redrive_batch (m ∷ ms) counts q = goes_on (redrive_batch ms) (redrive_one m counts q)

  -- What follows one batch, and what follows a reception: no message ends the loop, an exception
  -- of `receive_message` or of `delete_message` is raised, and the loop goes on otherwise.
  abbrev pub after_batch :
      (Redriven → Q → Option (Result AwsError Redriven × Q))
      → Result AwsError Redriven × Q
      → Option (Result AwsError Redriven × Q)
  after_batch next (err e, q) = some (err e, q)
  after_batch next (ok counts, q) = next counts q

  abbrev pub after_receive :
      (Redriven → Q → Option (Result AwsError Redriven × Q))
      → Redriven
      → Result AwsError (List (Message B)) × Q
      → Option (Result AwsError Redriven × Q)
  after_receive next counts (err e, q) = some (err e, q)
  after_receive next counts (ok [], q) = some (ok counts, q)
  after_receive next counts (ok (m ∷ ms), q) = after_batch next (redrive_batch (m ∷ ms) counts q)

  -- The `while` loop, on fuel; without fuel there is no result.
  unfoldable pub redrive_loop :
      (fuel max_messages : ℕ) → Redriven → Q → Option (Result AwsError Redriven × Q)
  redrive_loop zero max_messages counts q = none
  redrive_loop (suc fuel) max_messages counts q =
      elim (ltb (counts.moved + counts.failed) max_messages) [
        | false ↦ some (ok counts, q)
        | true ↦ after_receive (redrive_loop fuel max_messages) counts (
            client.receive_message dlq_url (min 10 (max_messages - counts.moved - counts.failed)) q)
      ]

-- After each round one message more is moved or failed, so `max_messages` rounds and the last test
-- are all.
abbrev pub start : Redriven
start = record { moved = 0; failed = 0 }

module _ {Q B : Type 0} (client : Sqs Q B) (names : Names) where
  abbrev pub on_queues :
      Queues Q
      → Option (Result AwsError Redriven × Q)
      → Option (Result AwsError Redriven × Queues Q)
  on_queues s none = none
  on_queues s (some (r, q)) = some (r, record s { sqs = q })

  abbrev pub redrive_between :
      ℕ → String → Result AwsError String × Queues Q → Option (Result AwsError Redriven × Queues Q)
  redrive_between max_messages dlq_url (err e, s) = some (err e, s)
  redrive_between max_messages dlq_url (ok main_url, s) =
      on_queues s (redrive_loop client main_url dlq_url (suc max_messages) max_messages start s.sqs)

  abbrev pub redrive_from :
      ℕ → Result AwsError String × Queues Q → Option (Result AwsError Redriven × Queues Q)
  redrive_from max_messages (err e, s) = some (err e, s)
  redrive_from max_messages (ok dlq_url, s) =
      redrive_between max_messages dlq_url (resolve_queue_url client names.sqs_queue_name s)

  unfoldable pub redrive : ℕ → Queues Q → Option (Result AwsError Redriven × Queues Q)
  unfolding redrive_loop
  redrive max_messages s = redrive_from max_messages (resolve_queue_url client names.sqs_dlq_name s)
