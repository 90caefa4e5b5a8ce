-- ===== src/Worker/Delivery.antt =====
-- A delivery whose handlers all succeed, and a delivery of an event that is done already.
use commerceops_ai_platform.Base.{
  ⊤, ◌<◌, ◌≡◌, refl, sym, ap, subst, ◌∙◌, inl, inr, true, Bool-cases, Option-cases, none, some,
  String, List, [], ◌∷◌, All, contains, Result, ok, err, arith,
}
use commerceops_ai_platform.Reliability.{
  Failure, raised, retries_exhausted, circuit_open, bulkhead_full,
}
use commerceops_ai_platform.Reliability.Retry.{Timing, retry_with_backoff}
use commerceops_ai_platform.Reliability.Retry.Outcome.{Outcome, retry_with_backoff-Outcome}
use commerceops_ai_platform.Cache.{Redis, cache_get_json}
use commerceops_ai_platform.Idempotency.{
  EventKey, handlers_done, Store, has_row, handler_names, acquire_lease, completed_handlers,
}
use commerceops_ai_platform.Idempotency.Records.{contains-handler_names}
use commerceops_ai_platform.Queue.{Sqs, Message}
use commerceops_ai_platform.Worker.{
  Body, Handler, Config, World, parse, settle, visit, visit_all, process_event, delete_message,
  conclude, handle_event, dispatch, handle_message,
}

module _ {C Q X P E : Type 0} (r : Redis C EventKey (List String)) (client : Sqs Q (Body P))
    (timing : Timing X) (config : Config) (handlers : List (Handler X P E)) where
  -- The handler raises nothing for this event.
  abbrev pub Succeeds : String → P → Handler X P E → Type 0
  Succeeds event_type payload h = (x : X) → (h.run event_type payload x).0 ≡ ok tt

  module _ (event_id event_type : String) (payload : P) (budget : 0 < config.retry.attempts) where
    settle-none :
        (h : Handler X P E) (s : Store C) (out : Result (Failure E) ⊤ × X)
        → Succeeds event_type payload h
        → Outcome (λ e. true) (h.run event_type payload) out.0 out.1
        → (settle r client timing config handlers event_id event_type h.name s out).0 ≡ none
    settle-none h s (ok a, x) good o = refl
    settle-none h s (err (raised e), x) good (m, f, _) =
        absurd (ground (arith, good m, ap (λ p. p.0) f))
    settle-none h s (err (retries_exhausted (some e)), x) good (m, f, _) =
        absurd (ground (arith, good m, ap (λ p. p.0) f))
    settle-none h s (err (retries_exhausted none), x) good o = absurd o
    settle-none h s (err circuit_open, x) good o = absurd o
    settle-none h s (err bulkhead_full, x) good o = absurd o

    visit-none :
        (done : List String) (h : Handler X P E) (s : Store C) (x : X)
        → Succeeds event_type payload h
        → (visit r client timing config handlers done event_id event_type payload h (s, x)).0 ≡ none
    unfolding visit
    visit-none done h s x good = elim (Bool-cases (contains h.name done)) [
      | inl old ↦ rw (old, visit) refl
      | inr new ↦
          rw (new, visit)
            (settle-none h s
              (retry_with_backoff timing config.retry (λ e. true) (h.run event_type payload) x) good
              (retry_with_backoff-Outcome timing config.retry (λ e. true) (h.run event_type payload)
                x budget))
    ]

    visit_all_none :
        (done : List String) (hs : List (Handler X P E)) (s : Store C) (x : X)
        → All (Succeeds event_type payload) hs
        → (visit_all r client timing config handlers done event_id event_type payload hs (s, x)).0
          ≡ []
    unfolding visit_all
    visit_all_none done [] s x good = refl
    visit_all_none done (h ∷ hs) s x good =
        let w =
          (visit r client timing config handlers done event_id event_type payload h (s, x)).1 in
        rw (visit-none done h s x good.0, visit_all_none done hs w.0 w.1 good.1) refl

    conclude_deletes :
        (deleted : Q → String → Type 0) (url receipt : String) (names : List String)
        (w : World C Q X)
        → ((q : Q) → deleted (client.delete_message url receipt q).1 receipt)
        → names ≡ []
        → deleted
            (conclude r client timing config handlers url receipt event_id names w).1.queues.sqs
            receipt
    unfolding conclude delete_message
    conclude_deletes deleted url receipt [] w works e = works w.queues.sqs
    conclude_deletes deleted url receipt (n ∷ ns) w works e = absurd (cc)

  -- Where the lease is granted, the retry budget is positive, every handler succeeds and SQS carries
  -- out the deletion, a message that parses is deleted at its first delivery, whatever Redis and the
  -- other calls to SQS answer.
  pub handle_message_completes :
      (deleted : Q → String → Type 0) (url : String) (m : Message (Body P)) (w : World C Q X)
      (event_id event_type : String) (payload : P)
      → 0 < config.retry.attempts
      → parse m.body ≡ ok (event_id, event_type, payload)
      → (acquire_lease r config.idempotency event_id w.store).0 ≡ true
      → All (Succeeds event_type payload) handlers
      → ((q : Q) → deleted (client.delete_message url m.receipt_handle q).1 m.receipt_handle)
      → deleted
          (handle_message r client timing config handlers url m w).1.queues.sqs
          m.receipt_handle
  unfolding handle_message handle_event process_event
  handle_message_completes deleted url m w event_id event_type payload budget parsed granted good
        works =
      subst
        (λ o.
          deleted (dispatch r client timing config handlers o url m w).1.queues.sqs
            m.receipt_handle)
        (sym parsed)
        (rw granted (
          conclude_deletes event_id event_type payload budget deleted url m.receipt_handle _ _ works
            (visit_all_none event_id event_type payload budget _ handlers _ _ good)))

  module _ (event_id event_type : String) (payload : P) where
    visit_all_done :
        (done : List String) (hs : List (Handler X P E)) (w : Store C × X)
        → All (λ h. contains h.name done ≡ true) hs
        → visit_all r client timing config handlers done event_id event_type payload hs w ≡ ([], w)
    unfolding visit_all visit
    visit_all_done done [] w all = refl
    visit_all_done done (h ∷ hs) (s, x) all =
        rw (all.0, visit) (rw (visit_all_done done hs (s, x) all.1) refl)

    -- An event whose handlers all have their durable rows, where Redis has no set for it or one that
    -- lists every handler: a delivery runs no handler, leaves nothing outstanding, changes nothing
    -- outside and no row, and leaves the store as the reading of the set by `completed_handlers` does.
    pub process_event_idle :
        (s : Store C) (x : X)
        → ((names : List String)
            → (cache_get_json r config.idempotency.cache_enabled (handlers_done event_id) s.cache).0
              ≡ some names
            → All (λ h. contains h.name names ≡ true) handlers)
        → All (λ h. has_row event_id h.name s.rows ≡ true) handlers
        → let read = (completed_handlers r config.idempotency event_id s).1 in
          (process_event r client timing config handlers event_id event_type payload (s, x)
            ≡ ([], (read, x)))
          × (read.rows ≡ s.rows)
    unfolding process_event completed_handlers
    process_event_idle s x listed all =
        elim (Option-cases
          (cache_get_json r config.idempotency.cache_enabled (handlers_done event_id) s.cache).0) [
            | inl miss ↦
                rw (miss, completed_handlers)
                  (
                    visit_all_done (handler_names event_id s.rows) handlers _ (named handlers all),
                    refl,
                  )
            | inr (names, hit) ↦
                rw (hit, completed_handlers)
                  (visit_all_done names handlers _ (listed names hit), refl)
          ]
      where
        named :
            (hs : List (Handler X P E))
            → All (λ h. has_row event_id h.name s.rows ≡ true) hs
            → All (λ h. contains h.name (handler_names event_id s.rows) ≡ true) hs
        named [] a = tt
        named (h ∷ hs) a = (contains-handler_names event_id h.name s.rows ∙ a.0, named hs a.1)
