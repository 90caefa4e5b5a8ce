-- ===== src/Dlq/Keeps.antt =====
-- `redrive` loses no message.
use commerceops_ai_platform.Base.{
  ⊤, ℕ, zero, suc, ◌-◌, ◌+◌, ◌≡◌, refl, sym, ap, subst, ◌⊎◌, inl, inr, Bool-cases, min, Option,
  none, some, String, List, [], ◌∷◌, All, ltb, Result, ok, err,
}
use commerceops_ai_platform.Queue.{Sqs, Message, AwsError}
use commerceops_ai_platform.Dlq.{
  Redriven, moved_or_failed, moved_or_raised, goes_on, redrive_one, redrive_batch, redrive_loop,
  after_batch, after_receive,
}

-- What is used of SQS, by the messages deleted, by receipt, and the bodies sent to a queue. A message
-- that is received has the body that its receipt stands for.
pub record IsTraced {Q B : Type 0} (client : Sqs Q B) (deleted : Q → String → Type 0)
    (sent : Q → String → B → Type 0) (body_of : String → B) : Type 0 where
  pub sent-send_message :
      (url : String) (b : B) (q q' : Q) → client.send_message url b q ≡ (ok tt, q') → sent q' url b
  pub keeps-send_message :
      (url u : String) (b c : B) (q : Q) → sent q u c → sent (client.send_message url b q).1 u c
  pub keeps-delete_message :
      (url receipt u : String) (c : B) (q : Q)
      → sent q u c
      → sent (client.delete_message url receipt q).1 u c
  pub keeps-receive_message :
      (url u : String) (n : ℕ) (c : B) (q : Q)
      → sent q u c
      → sent (client.receive_message url n q).1 u c
  pub deleted-send_message :
      (url receipt : String) (b : B) (q : Q)
      → deleted (client.send_message url b q).1 receipt
      → deleted q receipt
  pub deleted-receive_message :
      (url receipt : String) (n : ℕ) (q : Q)
      → deleted (client.receive_message url n q).1 receipt
      → deleted q receipt
  pub deleted-delete_message :
      (url own receipt : String) (q : Q)
      → deleted (client.delete_message url own q).1 receipt
      → (receipt ≡ own) ⊎ deleted q receipt
  pub receive-body_of :
      (url : String) (n : ℕ) (q q' : Q) (ms : List (Message B))
      → client.receive_message url n q ≡ (ok ms, q')
      → All (λ m. m.body ≡ body_of m.receipt_handle) ms

module _ {Q B : Type 0} (client : Sqs Q B) (main_url dlq_url : String)
    (deleted : Q → String → Type 0) (sent : Q → String → B → Type 0) (body_of : String → B)
    (laws : IsTraced client deleted sent body_of) (q0 : Q) where
  -- What has been deleted since `q0` has been sent to the main queue.
  abbrev pub Safe : Q → Type 0
  Safe q =
      (receipt : String)
      → deleted q receipt
      → deleted q0 receipt ⊎ sent q main_url (body_of receipt)

  abbrev Ours : Message B → Type 0
  Ours m = m.body ≡ body_of m.receipt_handle

  redrive_one-Safe :
      (m : Message B) (counts : Redriven) (q : Q)
      → Ours m
      → Safe q
      → Safe (redrive_one client main_url dlq_url m counts q).1
  unfolding redrive_one
  redrive_one-Safe m counts q ours v =
      go (client.send_message main_url m.body q).0 (client.send_message main_url m.body q).1 refl
    where
      after_send : (q' : Q) → (client.send_message main_url m.body q).1 ≡ q' → Safe q'
      after_send q' e = subst Safe e (λ receipt d.
          elim (v receipt (laws.deleted-send_message main_url receipt m.body q d)) [
            | inl before ↦ inl before
            | inr s ↦ inr (laws.keeps-send_message main_url main_url m.body (body_of receipt) q s)
          ])

      after_delete :
          (q' : Q)
          → Safe q'
          → sent q' main_url (body_of m.receipt_handle)
          → Safe (client.delete_message dlq_url m.receipt_handle q').1
      after_delete q' w s receipt d =
          elim (laws.deleted-delete_message dlq_url m.receipt_handle receipt q' d) [
            | inl own ↦ inr (
                laws.keeps-delete_message dlq_url m.receipt_handle main_url (body_of receipt) q'
                  (subst (λ x. sent q' main_url (body_of x)) (sym own) s))
            | inr before ↦ elim (w receipt before) [
              | inl old ↦ inl old
              | inr old ↦ inr (
                  laws.keeps-delete_message dlq_url m.receipt_handle main_url (body_of receipt) q'
                    old)
            ]
          ]

      deletion :
          (o : Result AwsError ⊤ × Q)
          → Safe o.1
          → Safe (moved_or_raised client main_url dlq_url counts o).1
      deletion (ok a, q') w = w
      deletion (err e, q') w = w

      go :
          (o : Result AwsError ⊤) (q' : Q)
          → client.send_message main_url m.body q ≡ (o, q')
          → Safe
              (moved_or_failed client main_url dlq_url m counts
                (client.send_message main_url m.body q)).1
      go (err e) q' h =
          subst (λ x. Safe (moved_or_failed client main_url dlq_url m counts x).1) (sym h)
            (after_send q' (ap (λ x. x.1) h))
      go (ok u) q' h =
          subst (λ x. Safe (moved_or_failed client main_url dlq_url m counts x).1) (sym h)
            (deletion (client.delete_message dlq_url m.receipt_handle q') (
              after_delete q' (after_send q' (ap (λ x. x.1) h)) (
                subst (λ b. sent q' main_url b) ours
                  (laws.sent-send_message main_url m.body q q' h))))

  redrive_batch-Safe :
      (ms : List (Message B)) (counts : Redriven) (q : Q)
      → All Ours ms
      → Safe q
      → Safe (redrive_batch client main_url dlq_url ms counts q).1
  unfolding redrive_batch
  redrive_batch-Safe [] counts q ours v = v
  redrive_batch-Safe (m ∷ ms) counts q ours v =
      go (redrive_one client main_url dlq_url m counts q) (redrive_one-Safe m counts q ours.0 v)
        (λ c q w. redrive_batch-Safe ms c q ours.1 w)
    where
      go :
          (o : Result AwsError Redriven × Q)
          → Safe o.1
          → ((c : Redriven) (q : Q)
              → Safe q
              → Safe (redrive_batch client main_url dlq_url ms c q).1)
          → Safe (goes_on client main_url dlq_url (redrive_batch client main_url dlq_url ms) o).1
      go (err e, q') h rest = h
      go (ok c, q') h rest = rest c q' h

  abbrev SafeEnd : Option (Result AwsError Redriven × Q) → Type 0
  SafeEnd none = Unit
  SafeEnd (some (r, q)) = Safe q

  redrive_loop-SafeEnd :
      (fuel max_messages : ℕ) (counts : Redriven) (q : Q)
      → Safe q
      → SafeEnd (redrive_loop client main_url dlq_url fuel max_messages counts q)
  unfolding redrive_loop
  redrive_loop-SafeEnd zero max_messages counts q v = tt
  redrive_loop-SafeEnd (suc fuel) max_messages counts q v =
      elim (Bool-cases (ltb (counts.moved + counts.failed) max_messages)) [
        | inr done ↦ rw (done, redrive_loop) v
        | inl more ↦
            rw (more, redrive_loop)
              (received (λ c q' w. redrive_loop-SafeEnd fuel max_messages c q' w)
                (min 10 (max_messages - counts.moved - counts.failed)))
      ]
    where
      Next : Type 0
      Next =
          (c : Redriven) (q' : Q)
          → Safe q'
          → SafeEnd (redrive_loop client main_url dlq_url fuel max_messages c q')

      batched :
          Next
          → (o : Result AwsError Redriven × Q) → Safe o.1
          → SafeEnd (
              after_batch client main_url dlq_url
                (redrive_loop client main_url dlq_url fuel max_messages)
                o)
      batched next (err e, q') w = w
      batched next (ok c, q') w = next c q' w

      after_reception : (n : ℕ) → Safe (client.receive_message dlq_url n q).1
      after_reception n receipt d =
          elim (v receipt (laws.deleted-receive_message dlq_url receipt n q d)) [
            | inl before ↦ inl before
            | inr s ↦ inr (laws.keeps-receive_message dlq_url main_url n (body_of receipt) q s)
          ]

      received :
          Next
          → (n : ℕ)
          → SafeEnd (
              after_receive client main_url dlq_url
                (redrive_loop client main_url dlq_url fuel max_messages)
                counts
                (client.receive_message dlq_url n q))
      received next n =
          go (client.receive_message dlq_url n q).0 (client.receive_message dlq_url n q).1 refl
        where
          go :
              (o : Result AwsError (List (Message B))) (q' : Q)
              → client.receive_message dlq_url n q ≡ (o, q')
              → SafeEnd (
                  after_receive client main_url dlq_url
                    (redrive_loop client main_url dlq_url fuel max_messages)
                    counts
                    (client.receive_message dlq_url n q))
          go (err e) q' got = rw got (subst Safe (ap (λ x. x.1) got) (after_reception n))
          go (ok []) q' got = rw got (subst Safe (ap (λ x. x.1) got) (after_reception n))
          go (ok (m ∷ ms)) q' got = rw got (
              batched next (redrive_batch client main_url dlq_url (m ∷ ms) counts q') (
                redrive_batch-Safe (m ∷ ms) counts q'
                  (laws.receive-body_of dlq_url n q q' (m ∷ ms) got)
                  (subst Safe (ap (λ x. x.1) got) (after_reception n))))

  -- Where SQS deletes only what it is told to delete and keeps what it accepted, a message leaves
  -- the dead-letter queue only after its body was sent to the main queue: whatever calls fail and
  -- wherever the loop ends, each receipt deleted in the end was deleted before, or its body has
  -- been sent to the main queue.
  pub redrive_loop_keeps :
      (fuel max_messages : ℕ) (from : Redriven) (r : Result AwsError Redriven) (q : Q)
      (receipt : String)
      → redrive_loop client main_url dlq_url fuel max_messages from q0 ≡ some (r, q)
      → deleted q receipt
      → deleted q0 receipt ⊎ sent q main_url (body_of receipt)
  redrive_loop_keeps fuel max_messages from r q receipt e d =
      subst SafeEnd e (redrive_loop-SafeEnd fuel max_messages from q0 (λ x b. inl b)) receipt d
