-- ===== src/Worker/Deletion.antt =====
-- When a message leaves the queue.
use commerceops_ai_platform.Base.{
  ⊤, ◌≡◌, refl, sym, subst, ◌⊎◌, inl, inr, true, Bool-cases, String, List, [], ◌∷◌, All, All-map,
  Result, ok, err,
}
use commerceops_ai_platform.Reliability.Retry.{Timing}
use commerceops_ai_platform.Cache.{Redis}
use commerceops_ai_platform.Cache.Laws.{IsRedis, holds-cache_set_if_absent}
use commerceops_ai_platform.Idempotency.{
  EventKey, lease, handlers_done, Store, has_row, acquire_lease,
}
use commerceops_ai_platform.Idempotency.Records.{IsSound}
use commerceops_ai_platform.Queue.{Sqs, Queues, AwsError, Message, send_to}
use commerceops_ai_platform.Queue.Sent.{IsSending, IsKnown, IsSentTo, send_to-IsSentTo}
use commerceops_ai_platform.Queue.Laws.{IsSqs, deleted-send_to}
use commerceops_ai_platform.Worker.{
  Body, poison, Handler, Config, World, parse, process_event, extend_visibility, send_to_dlq,
  delete_message, handle_poison, conclude, handle_event, handle_message, dispatch,
}
use commerceops_ai_platform.Worker.Fanout.{process_event-Settled, Settled}

module _ {C Q X P E : Type 0} (r : Redis C EventKey (List String)) (client : Sqs Q (Body P))
    (timing : Timing X) (config : Config) (handlers : List (Handler X P E))
    (holds : C → EventKey → List String → Type 0) (laws : IsRedis r holds)
    (deleted : Q → String → Type 0) (sqs : IsSqs client deleted) where
  acquire_lease-IsSound :
      (event_id : String) (s : Store C)
      → IsSound r config.idempotency holds laws s
      → IsSound r config.idempotency holds laws (acquire_lease r config.idempotency event_id s).1
  unfolding acquire_lease
  acquire_lease-IsSound event_id s v e n names h = v e n names (
      holds-cache_set_if_absent r holds laws (lease event_id) (handlers_done e) names
        config.idempotency.idempotency_lease_ttl_seconds s.cache h)

  -- No name is outstanding, so every handler has its row.
  all_durable :
      (event_id : String) (s : Store C) (hs : List (Handler X P E))
      → All (Settled r client timing config handlers holds laws event_id s []) hs
      → All (λ h. has_row event_id h.name s.rows ≡ true) hs
  all_durable event_id s hs a = All-map (λ h. settled_row h) hs a
    where
      settled_row :
          (h : Handler X P E)
          → Settled r client timing config handlers holds laws event_id s [] h
          → has_row event_id h.name s.rows ≡ true
      settled_row h (inl e) = absurd (cc)
      settled_row h (inr e) = e

  abbrev Outcome : String → String → World C Q X → World C Q X → Type 0
  Outcome event_id receipt w w' =
      deleted w.queues.sqs receipt
      ⊎ All (λ h. has_row event_id h.name w'.store.rows ≡ true) handlers

  conclude-Outcome :
      (url receipt event_id : String) (names : List String) (w0 w : World C Q X)
      → (deleted w.queues.sqs receipt → deleted w0.queues.sqs receipt)
      → All (Settled r client timing config handlers holds laws event_id w.store names) handlers
      → let (_, w') = conclude r client timing config handlers url receipt event_id names w in
        deleted w'.queues.sqs receipt → Outcome event_id receipt w0 w'
  unfolding conclude
  conclude-Outcome url receipt event_id [] w0 w back a d =
      inr (all_durable event_id w.store handlers a)
  conclude-Outcome url receipt event_id (n ∷ names) w0 w back a d = inl (back d)

  handle_event-Outcome :
      (url receipt event_id event_type : String) (payload : P) (w : World C Q X)
      → IsSound r config.idempotency holds laws w.store
      → let (_, w') =
          handle_event r client timing config handlers url receipt event_id event_type payload w in
        deleted w'.queues.sqs receipt → Outcome event_id receipt w w'
  unfolding handle_event
  handle_event-Outcome url receipt event_id event_type payload w v =
      elim (Bool-cases (acquire_lease r config.idempotency event_id w.store).0) [
        | inl granted ↦
            rw (granted, handle_event)
              (conclude-Outcome url receipt event_id done.0 w
                (record {
                  store = done.1.0;
                  queues = extend_visibility r client timing config handlers url receipt w.queues;
                  outside = done.1.1;
                })
                (unfold extend_visibility in
                  λ d.
                    sqs.deleted-change_message_visibility url receipt receipt
                      config.sqs_visibility_timeout_seconds w.queues.sqs d)
                settled)
        | inr refused ↦ rw (refused, handle_event) (λ d. inl d)
      ]
    where
      held : Store C
      held = (acquire_lease r config.idempotency event_id w.store).1

      done : List String × (Store C × X)
      done =
          process_event r client timing config handlers event_id event_type payload
            (held, w.outside)

      settled :
          All (Settled r client timing config handlers holds laws event_id done.1.0 done.0) handlers
      settled =
          (process_event-Settled r client timing config handlers holds laws event_id event_type
            payload held w.outside (acquire_lease-IsSound event_id w.store v)).1

  -- Where Redis and SQS keep to their laws and every handler name that Redis may answer has its
  -- durable row: a message that parses and was not deleted before is deleted by `handle_message`
  -- only when every handler has its durable row for the event afterwards, however the handlers and
  -- the calls to Redis and SQS fail, and also where the lease is refused.
  pub handle_message_deletes :
      (url : String) (m : Message (Body P)) (w : World C Q X) (event_id event_type : String)
      (payload : P)
      → parse m.body ≡ ok (event_id, event_type, payload)
      → IsSound r config.idempotency holds laws w.store
      → ¬ deleted w.queues.sqs m.receipt_handle
      → deleted
          (handle_message r client timing config handlers url m w).1.queues.sqs
          m.receipt_handle
      → All
          (λ h.
            has_row event_id h.name
              (handle_message r client timing config handlers url m w).1.store.rows
            ≡ true)
          handlers
  handle_message_deletes url m w event_id event_type payload parsed v fresh d = elim (same d) [
    | inl before ↦ absurd (fresh before)
    | inr all ↦ all
  ]
    where
      same :
          deleted
            (handle_message r client timing config handlers url m w).1.queues.sqs
            m.receipt_handle
          → Outcome event_id m.receipt_handle w
              (handle_message r client timing config handlers url m w).1
      same =
          unfold handle_message in
          subst
            (λ o.
              deleted (dispatch r client timing config handlers o url m w).1.queues.sqs
                m.receipt_handle
              → Outcome event_id m.receipt_handle w
                  (dispatch r client timing config handlers o url m w).1)
            (sym parsed) (handle_event-Outcome url m.receipt_handle event_id event_type payload w v)

  -- A poison message is deleted only where `_send_to_dlq` returned.
  poison_returned :
      (url : String) (m : Message (Body P)) (w : World C Q X)
      → parse m.body ≡ err poison
      → ¬ deleted w.queues.sqs m.receipt_handle
      → deleted
          (handle_message r client timing config handlers url m w).1.queues.sqs
          m.receipt_handle
      → (send_to_dlq r client timing config handlers m.body w.queues).0 ≡ ok tt
  unfolding handle_message
  poison_returned url m w parsed fresh d =
      go (send_to_dlq r client timing config handlers m.body w.queues).0 refl
    where
      q' : Queues Q
      q' = (send_to_dlq r client timing config handlers m.body w.queues).1

      poisoned :
          deleted
            (handle_poison r client timing config handlers url m w.queues).1.sqs
            m.receipt_handle
      poisoned =
          subst
            (λ o.
              deleted (dispatch r client timing config handlers o url m w).1.queues.sqs
                m.receipt_handle)
            parsed d

      go :
          (o : Result AwsError ⊤)
          → (send_to_dlq r client timing config handlers m.body w.queues).0 ≡ o
          → (send_to_dlq r client timing config handlers m.body w.queues).0 ≡ ok tt
      go (ok a) e = e
      go (err x) e =
          let failed : deleted q'.sqs m.receipt_handle = rw (e, handle_poison) at poisoned in
          absurd (
            fresh (
              unfold send_to_dlq in
              deleted-send_to client deleted sqs config.sqs_dlq_name m.body w.queues
                m.receipt_handle failed))

  module _ (names : String → String → Type 0) (sent : Q → String → Body P → Type 0)
      (sending : IsSending client names sent) where
    after_poison-IsSentTo :
        (url : String) (m : Message (Body P)) (q : Queues Q)
        → (send_to_dlq r client timing config handlers m.body q).0 ≡ ok tt
        → IsKnown names q.url_cache
        → IsSentTo client names sent sending config.sqs_dlq_name m.body
            (handle_poison r client timing config handlers url m q).1.sqs
    unfolding handle_poison delete_message send_to_dlq
    after_poison-IsSentTo url m q e known =
        let (dlq, (own, put)) =
          send_to-IsSentTo client names sent sending config.sqs_dlq_name m.body q
            (send_to client config.sqs_dlq_name m.body q).1 known
            (λ i. (e i, (send_to client config.sqs_dlq_name m.body q).1)) in
        rw (e, handle_poison)
          (dlq, (own, sending.sent-delete_message url m.receipt_handle dlq m.body _ put))

    -- Where Redis and SQS keep to their laws and the URLs that are kept are their queues', a poison
    -- message that was not deleted before is deleted by `handle_message` only if its body has been
    -- sent to the dead-letter queue.
    pub handle_poison_deletes :
        (url : String) (m : Message (Body P)) (w : World C Q X)
        → parse m.body ≡ err poison
        → IsKnown names w.queues.url_cache
        → ¬ deleted w.queues.sqs m.receipt_handle
        → deleted
            (handle_message r client timing config handlers url m w).1.queues.sqs
            m.receipt_handle
        → IsSentTo client names sent sending config.sqs_dlq_name m.body
            (handle_message r client timing config handlers url m w).1.queues.sqs
    handle_poison_deletes url m w parsed known fresh d =
        let returned = poison_returned url m w parsed fresh d in
        unfold handle_message in
        subst
          (λ o.
            IsSentTo client names sent sending config.sqs_dlq_name m.body
              (dispatch r client timing config handlers o url m w).1.queues.sqs)
          (sym parsed) (after_poison-IsSentTo url m w.queues returned known)
