-- ===== src/Queue/Laws.antt =====
-- What the development uses of SQS.
use commerceops_ai_platform.Base.{ℕ, inl, inr, Option-cases, String, List, Result, ok, err, feed}
use commerceops_ai_platform.Queue.{
  Sqs, Queues, AwsError, cached_url, remember, resolve_queue_url, on_sqs, send_to,
}

-- What is used of SQS: only `delete_message` deletes a message. `deleted q receipt` says that the
-- message with that receipt has been deleted.
pub record IsSqs {Q B : Type 0} (client : Sqs Q B) (deleted : Q → String → Type 0) : Type 0 where
  pub deleted-get_queue_url :
      (name receipt : String) (q : Q)
      → deleted (client.get_queue_url name q).1 receipt
      → deleted q receipt
  pub deleted-send_message :
      (url receipt : String) (b : B) (q : Q)
      → deleted (client.send_message url b q).1 receipt
      → deleted q receipt
  pub deleted-change_message_visibility :
      (url other receipt : String) (n : ℕ) (q : Q)
      → deleted (client.change_message_visibility url other n q).1 receipt
      → deleted q receipt

module _ {Q B : Type 0} (client : Sqs Q B) (deleted : Q → String → Type 0)
    (sqs : IsSqs client deleted) where
  deleted-remember :
      (name receipt : String) (urls : List (String × String)) (q : Q)
      (out : Result AwsError String × Q)
      → (deleted out.1 receipt → deleted q receipt)
      → deleted (remember client name urls out).1.sqs receipt
      → deleted q receipt
  deleted-remember name receipt urls q (ok url, q') back d = back d
  deleted-remember name receipt urls q (err e, q') back d = back d

  deleted-resolve_queue_url :
      (name receipt : String) (s : Queues Q)
      → deleted (resolve_queue_url client name s).1.sqs receipt
      → deleted s.sqs receipt
  unfolding resolve_queue_url
  deleted-resolve_queue_url name receipt s = elim (Option-cases (cached_url name s.url_cache)) [
    | inl unknown ↦
        rw (unknown, resolve_queue_url)
          (deleted-remember name receipt s.url_cache s.sqs (client.get_queue_url name s.sqs)
            (sqs.deleted-get_queue_url name receipt s.sqs))
    | inr (url, known) ↦ rw (known, resolve_queue_url) (λ d. d)
  ]

  deleted-send :
      (body : B) (receipt : String) (out : Result AwsError String × Queues Q)
      → deleted (feed (λ url. on_sqs client (client.send_message url body)) out).1.sqs receipt
      → deleted out.1.sqs receipt
  deleted-send body receipt (ok url, s) d = sqs.deleted-send_message url receipt body s.sqs d
  deleted-send body receipt (err e, s) d = d

  -- Sending deletes no message.
  pub deleted-send_to :
      (name : String) (body : B) (s : Queues Q) (receipt : String)
      → deleted (send_to client name body s).1.sqs receipt
      → deleted s.sqs receipt
  unfolding send_to
  deleted-send_to name body s receipt d =
      deleted-resolve_queue_url name receipt s
        (deleted-send body receipt (resolve_queue_url client name s) d)
