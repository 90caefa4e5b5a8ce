-- ===== src/Drills/QueueLoad.antt =====
-- loadtest/queue_experiment.py: `produce` and `consume`. SQS, the sleep and the random event are
-- parameters; the clock is only read for the messages that are printed.
use commerceops_ai_platform.Base.{⊤, ℕ, zero, suc, ◌+◌, String, List, [], ◌∷◌, ok, Exec, ◌>>=◌}
use commerceops_ai_platform.Queue.{Sqs, Message, AwsError}

module _ {Q B : Type 0} (client : Sqs Q B) where
  -- The loop of `produce`; `fake_event` is the body of one message, and what the random source makes
  -- of it is in the state.
  unfoldable pub send_all : (Q → B × Q) → String → ℕ → Exec Q AwsError ⊤
  send_all fake_event queue_url zero q = (ok tt, q)
  send_all fake_event queue_url (suc n) q =
      let (body, q') = fake_event q in
      (client.send_message queue_url body >>= (λ sent. send_all fake_event queue_url n)) q'

  unfoldable pub produce : (Q → B × Q) → String → ℕ → Exec Q AwsError ⊤
  unfolding send_all
  produce fake_event queue_name count =
      client.get_queue_url queue_name >>= (λ queue_url. send_all fake_event queue_url count)

  module _ (sleep : ℕ → Q → Q) (delay_ms : ℕ) where
    -- The loop over the messages of a batch, which counts those that it deletes.
    unfoldable pub consume_messages : String → ℕ → List (Message B) → Exec Q AwsError ℕ
    consume_messages queue_url processed [] q = (ok processed, q)
    consume_messages queue_url processed (m ∷ ms) q =
        (client.delete_message queue_url m.receipt_handle
            >>= (λ deleted. consume_messages queue_url (processed + 1) ms))
          (sleep delay_ms q)

    -- The loop of `consume`, with the batches that are left.
    unfoldable pub consume_batches : String → ℕ → ℕ → Exec Q AwsError ℕ
    unfolding consume_messages
    consume_batches queue_url processed zero q = (ok processed, q)
    consume_batches queue_url processed (suc n) q =
        (client.receive_message queue_url 10 >>= (λ messages.
            consume_messages queue_url processed messages
            >>= (λ done. consume_batches queue_url done n)))
          q

    -- With `max_batches`; without it `consume` does not return.
    unfoldable pub consume : String → ℕ → Exec Q AwsError ℕ
    unfolding consume_batches
    consume queue_name max_batches =
        client.get_queue_url queue_name >>= (λ queue_url. consume_batches queue_url 0 max_batches)
