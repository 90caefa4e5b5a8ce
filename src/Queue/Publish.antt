-- ===== src/Queue/Publish.antt =====
-- What `publish_event` promises to the order request.
use commerceops_ai_platform.Base.{
  ⊤, ◌<◌, ◌≡◌, refl, sym, ap, subst, ◌∙◌, true, some, String, Result, ok, err, arith,
}
use commerceops_ai_platform.Reliability.{Failure}
use commerceops_ai_platform.Reliability.Retry.{Timing, Policy, retry_with_backoff}
use commerceops_ai_platform.Reliability.Retry.Outcome.{Outcome, retry_with_backoff-Outcome}
use commerceops_ai_platform.Queue.{Sqs, Queues, AwsError, send_to, publish_event, published}

module _ {Q B : Type 0} (client : Sqs Q B) (timing : Timing (Queues Q)) (policy : Policy) where
  -- With a positive budget of attempts, an event id comes back only after a send of this very body
  -- that the queue accepted, as the last thing that was done, and it is the id that the body was
  -- built with.
  pub publish_event_sent :
      (queue_name event_id : String) (body : B) (s : Queues Q) (id : String) (s' : Queues Q)
      → 0 < policy.attempts
      → publish_event client timing policy queue_name event_id body s ≡ (some id, s')
      → (id ≡ event_id) × ((m : Queues Q) × (send_to client queue_name body m ≡ (ok tt, s')))
  unfolding publish_event
  publish_event_sent queue_name event_id body s id s' h e = go (retry.0) (retry.1) refl
    where
      retry : Result (Failure AwsError) ⊤ × Queues Q
      retry = retry_with_backoff timing policy (λ x. true) (send_to client queue_name body) s

      go :
          (o : Result (Failure AwsError) ⊤) (m : Queues Q)
          → retry ≡ (o, m)
          → (id ≡ event_id) × ((m : Queues Q) × (send_to client queue_name body m ≡ (ok tt, s')))
      go (err x) m y = absurd (ground (arith, ap (published client event_id) (sym y) ∙ e))
      go (ok a) m y =
          let end = ap (published client event_id) (sym y) ∙ e in
          let (q, sent) =
            subst (λ o. Outcome (λ x. true) (send_to client queue_name body) o.0 o.1) y
              (retry_with_backoff-Outcome timing policy (λ x. true) (send_to client queue_name body)
                s h) in
          let same : m ≡ s' = ground (arith, end) in
          (ground (arith, end), (q, sent ∙ ap (λ x. (ok a, x)) same))
