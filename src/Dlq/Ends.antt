-- ===== src/Dlq/Ends.antt =====
-- `redrive` ends, and moves no more messages than it was told to.
use commerceops_ai_platform.Base.{
  ⊤, ℕ, zero, suc, ◌+◌, ◌-◌, ◌≤◌, ◌<◌, ◌≡◌, refl, subst, min, inl, inr, Bool-cases, Option, none,
  some, String, List, [], ◌∷◌, length, ltb, ltb→lt, Result, ok, err, arith,
}
use commerceops_ai_platform.Queue.{Sqs, Queues, Message, AwsError, resolve_queue_url}
use commerceops_ai_platform.Dlq.{
  Names, Redriven, start, moved_or_failed, moved_or_raised, goes_on, on_queues, redrive_one,
  redrive_batch, redrive_loop, after_batch, after_receive, redrive_between, redrive_from, redrive,
}

abbrev pub total : Redriven → ℕ
total counts = counts.moved + counts.failed

-- What is known of the counts that come back.
abbrev Counted : {Q : Type 0} → ℕ → Result AwsError Redriven × Q → Type 0
Counted n (ok counts, q) = total counts ≡ n
Counted n (err e, q) = Unit

-- SQS gives no more messages than it is asked for.
abbrev pub IsPaged : {Q B : Type 0} → Sqs Q B → Type 0
IsPaged {Q} {B} client =
    (url : String) (n : ℕ) (q q' : Q) (ms : List (Message B))
    → client.receive_message url n q ≡ (ok ms, q')
    → length ms ≤ n

module _ {Q B : Type 0} (client : Sqs Q B) (main_url dlq_url : String) where
  redrive_one-Counted :
      (m : Message B) (counts : Redriven) (q : Q)
      → Counted {Q = Q} (total counts + 1) (redrive_one client main_url dlq_url m counts q)
  unfolding redrive_one
  redrive_one-Counted m counts q = go (client.send_message main_url m.body q)
    where
      deleted :
          (o : Result AwsError ⊤ × Q)
          → Counted {Q = Q} (total counts + 1) (moved_or_raised client main_url dlq_url counts o)
      deleted (ok a, q') = omega arith
      deleted (err e, q') = tt

      go :
          (o : Result AwsError ⊤ × Q)
          → Counted {Q = Q} (total counts + 1) (moved_or_failed client main_url dlq_url m counts o)
      go (ok a, q') = deleted (client.delete_message dlq_url m.receipt_handle q')
      go (err e, q') = omega arith

  redrive_batch-Counted :
      (ms : List (Message B)) (counts : Redriven) (q : Q)
      → Counted {Q = Q}
          (total counts + length ms)
          (redrive_batch client main_url dlq_url ms counts q)
  unfolding redrive_batch
  redrive_batch-Counted [] counts q = omega arith
  redrive_batch-Counted (m ∷ ms) counts q =
      go (redrive_one client main_url dlq_url m counts q) (redrive_one-Counted m counts q)
        (λ c q. redrive_batch-Counted ms c q)
    where
      go :
          (o : Result AwsError Redriven × Q)
          → Counted {Q = Q} (total counts + 1) o
          → ((c : Redriven) (q : Q)
              → Counted {Q = Q}
                  (total c + length ms)
                  (redrive_batch client main_url dlq_url ms c q))
          → Counted {Q = Q}
              (total counts + suc (length ms))
              (goes_on client main_url dlq_url (redrive_batch client main_url dlq_url ms) o)
      go (err e, q') h rest = tt
      go (ok c, q') h rest =
          let e : total c + length ms ≡ total counts + suc (length ms) = omega (arith, h) in
          subst (λ n. Counted n (redrive_batch client main_url dlq_url ms c q')) e (rest c q')

  -- The loop gave a result, and one with counts is within the bound.
  abbrev Ended : ℕ → Option (Result AwsError Redriven × Q) → Type 0
  Ended bound none = ⊥
  Ended bound (some (ok counts, q)) = total counts ≤ bound
  Ended bound (some (err e, q)) = Unit

  redrive_loop-Ended :
      (fuel max_messages : ℕ) (counts : Redriven) (q : Q)
      → IsPaged client
      → max_messages - total counts < fuel
      → total counts ≤ max_messages
      → Ended max_messages (redrive_loop client main_url dlq_url fuel max_messages counts q)
  unfolding redrive_loop
  redrive_loop-Ended zero max_messages counts q paged h l = absurd (omega arith)
  redrive_loop-Ended (suc fuel) max_messages counts q paged h l =
      elim (Bool-cases (ltb (counts.moved + counts.failed) max_messages)) [
        | inr done ↦ rw (done, redrive_loop) l
        | inl more ↦
            rw (more, redrive_loop)
              (received (λ c q'. redrive_loop-Ended fuel max_messages c q' paged)
                (ltb→lt (counts.moved + counts.failed) max_messages more)
                (client.receive_message dlq_url
                  (min 10 (max_messages - counts.moved - counts.failed)) q).0
                (client.receive_message dlq_url
                  (min 10 (max_messages - counts.moved - counts.failed)) q).1
                refl)
      ]
    where
      Next : Type 0
      Next =
          (c : Redriven) (q' : Q)
          → max_messages - total c < fuel
          → total c ≤ max_messages
          → Ended max_messages (redrive_loop client main_url dlq_url fuel max_messages c q')

      batched :
          Next
          → (k : ℕ) → total counts + suc k ≤ max_messages
          → (o : Result AwsError Redriven × Q) → Counted (total counts + suc k) o
          → Ended max_messages (
              after_batch client main_url dlq_url
                (redrive_loop client main_url dlq_url fuel max_messages)
                o)
      batched next k fits (err e, q') c = tt
      batched next k fits (ok counts', q') c =
          next counts' q' (omega (arith, h, c)) (omega (arith, c))

      received :
          Next
          → total counts < max_messages
          → (o : Result AwsError (List (Message B))) (q' : Q)
          → client.receive_message dlq_url (min 10 (max_messages - counts.moved - counts.failed)) q
            ≡ (o, q')
          → Ended max_messages (
              after_receive client main_url dlq_url
                (redrive_loop client main_url dlq_url fuel max_messages)
                counts
                (o, q'))
      received next lt (err e) q' got = tt
      received next lt (ok []) q' got = l
      received next lt (ok (m ∷ ms)) q' got =
          let few = paged dlq_url _ q q' (m ∷ ms) got in
          batched next (length ms) (omega (arith, few, lt))
            (redrive_batch client main_url dlq_url (m ∷ ms) counts q')
            (redrive_batch-Counted (m ∷ ms) counts q')

-- The counts stay within the bound.
abbrev pub Within : ℕ → Result AwsError Redriven → Type 0
Within bound (ok counts) = total counts ≤ bound
Within bound (err e) = Unit

module _ {Q B : Type 0} (client : Sqs Q B) (names : Names) (max_messages : ℕ) where
  abbrev pub Finished : Option (Result AwsError Redriven × Queues Q) → Type 0
  Finished o =
      (r : Result AwsError Redriven) × (s : Queues Q) × (o ≡ some (r, s)) × Within max_messages r

  between-Finished :
      (dlq_url : String) (o : Result AwsError String × Queues Q)
      → IsPaged client
      → Finished (redrive_between client names max_messages dlq_url o)
  between-Finished dlq_url (err e, s) paged = (err e, s, refl, tt)
  between-Finished dlq_url (ok main_url, s) paged =
      go (redrive_loop client main_url dlq_url (suc max_messages) max_messages start s.sqs) (
        redrive_loop-Ended client main_url dlq_url (suc max_messages) max_messages start s.sqs paged
          (omega arith) (omega arith))
    where
      go :
          (o : Option (Result AwsError Redriven × Q))
          → Ended client main_url dlq_url max_messages o
          → Finished (on_queues client names s o)
      go none h = absurd h
      go (some (ok c, q)) h = (ok c, record s { sqs = q }, refl, h)
      go (some (err e, q)) h = (err e, record s { sqs = q }, refl, tt)

  from-Finished :
      (o : Result AwsError String × Queues Q)
      → IsPaged client
      → Finished (redrive_from client names max_messages o)
  from-Finished (err e, s) paged = (err e, s, refl, tt)
  from-Finished (ok dlq_url, s) paged =
      between-Finished dlq_url (resolve_queue_url client names.sqs_queue_name s) paged

  -- Where SQS gives no more messages than it is asked for, `redrive` always ends, whatever calls fail:
  -- it raises, or it returns counts of which the moved and the failed together are at most
  -- `max_messages`.
  pub redrive-Finished :
      (s : Queues Q) → IsPaged client → Finished (redrive client names max_messages s)
  unfolding redrive
  redrive-Finished s paged = from-Finished (resolve_queue_url client names.sqs_dlq_name s) paged
