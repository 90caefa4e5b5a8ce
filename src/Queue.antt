-- ===== src/Queue.antt =====
-- app/core/queue.py. SQS is a parameter: each call of the client may raise, and acts on its own
-- state. A queue's URL is looked up once for each name and kept.
pub mod Laws
pub mod Sent
pub mod Publish
mod Tests
use commerceops_ai_platform.Base.{
  ⊤, ℕ, Bool, true, false, Option, none, some, String, List, [], ◌∷◌, str_eq, if◌then◌else◌, Result,
  ok, err, Exec, pure, ◌>>=◌,
}
use commerceops_ai_platform.Reliability.{Failure}
use commerceops_ai_platform.Reliability.Retry.{Timing, Policy, retry_with_backoff}

-- `BotoCoreError` or `ClientError`
pub data AwsError : Type 0 where
  aws_error : AwsError

pub record Message (B : Type 0) : Type 0 where
  pub body : B
  pub receipt_handle : String

-- The client over the state `Q`, with bodies `B`. Queues are named by their URLs.
pub record Sqs (Q B : Type 0) : Type 0 where
  pub get_queue_url : String → Q → Result AwsError String × Q
  pub send_message : String → B → Q → Result AwsError ⊤ × Q
  pub receive_message : String → ℕ → Q → Result AwsError (List (Message B)) × Q
  pub delete_message : String → String → Q → Result AwsError ⊤ × Q
  pub change_message_visibility : String → String → ℕ → Q → Result AwsError ⊤ × Q

-- The module's `_queue_url_cache` beside the state of SQS.
pub record Queues (Q : Type 0) : Type 0 where
  pub url_cache : List (String × String)
  pub sqs : Q

pub cached_url : String → List (String × String) → Option String
cached_url name [] = none
cached_url name ((n, url) ∷ rest) = if str_eq n name then some url else cached_url name rest

module _ {Q B : Type 0} (client : Sqs Q B) where
  abbrev pub remember :
      String
      → List (String × String)
      → Result AwsError String × Q
      → Result AwsError String × Queues Q
  remember name urls (ok url, q) = (ok url, record { url_cache = (name, url) ∷ urls; sqs = q })
  remember name urls (err e, q) = (err e, record { url_cache = urls; sqs = q })

  unfoldable pub resolve_queue_url : String → Exec (Queues Q) AwsError String
  unfolding cached_url
  resolve_queue_url name s = elim (cached_url name s.url_cache) [
    | some url ↦ (ok url, s)
    | none ↦ remember name s.url_cache (client.get_queue_url name s.sqs)
  ]

  -- A call of the client, on the queues.
  abbrev pub on_sqs : {A : Type 0} → (Q → Result AwsError A × Q) → Exec (Queues Q) AwsError A
  on_sqs f s = let (r, q) = f s.sqs in (r, record s { sqs = q })

  unfoldable pub queue_reachable : String → Queues Q → Bool × Queues Q
  unfolding resolve_queue_url
  queue_reachable name s =
      let (r, s') = resolve_queue_url name s in (elim r [ ok url ↦ true | err e ↦ false ], s')

  -- `_send` of `publish_event`
  unfoldable pub send_to : String → B → Exec (Queues Q) AwsError ⊤
  unfolding resolve_queue_url
  send_to name body = do url ← resolve_queue_url name; on_sqs (client.send_message url body)

  abbrev published :
      {A : Type 0} → String → Result (Failure AwsError) A × Queues Q → Option String × Queues Q
  published event_id (ok a, s) = (some event_id, s)
  published event_id (err e, s) = (none, s)

  -- The event id and the body are built once, by the caller here, before the first attempt. The
  -- exceptions of `_send` are all among `retry_on`, so those that are caught are all that can come.
  unfoldable pub publish_event :
      Timing (Queues Q) → Policy → String → String → B → Queues Q → Option String × Queues Q
  unfolding send_to
  publish_event timing policy queue_name event_id body s =
      published event_id (retry_with_backoff timing policy (λ e. true) (send_to queue_name body) s)
