-- ===== src/Worker/Race/Alone.antt =====
-- A worker that no other interrupts does in its steps what `process_event` of app/worker.py does.
use commerceops_ai_platform.Base.{
  ⊤, ℕ, zero, suc, ◌≡◌, refl, ap, ◌∙◌, inl, inr, true, Bool-cases, String, List, [], ◌∷◌, ◌++◌,
  append_assoc, contains, Result, ok, err,
}
use commerceops_ai_platform.Reliability.{Failure}
use commerceops_ai_platform.Reliability.Retry.{Timing, retry_with_backoff}
use commerceops_ai_platform.Cache.{Redis}
use commerceops_ai_platform.Idempotency.{EventKey, Store, completed_handlers, record_handler_done}
use commerceops_ai_platform.Queue.{Sqs}
use commerceops_ai_platform.Worker.{
  Body, Handler, Config, visit, visit_all, process_event, settle, cons_option,
}
use commerceops_ai_platform.Worker.Race.{
  Phase, starting, visiting, finished, Shared, judged, advance,
}

module _ {C Q X P E : Type 0} (r : Redis C EventKey (List String)) (client : Sqs Q (Body P))
    (timing : Timing X) (config : Config) (handlers : List (Handler X P E))
    (event_id event_type : String) (payload : P) where
  -- A number of steps of one worker.
  unfoldable pub alone : ℕ → Phase X P E × Shared C X → Phase X P E × Shared C X
  alone zero out = out
  alone (suc n) (p, w) = alone n (advance r timing config handlers event_id event_type payload p w)

  -- Where the worker is, and what it leaves.
  abbrev pub outcome : Phase X P E × Shared C X → Phase X P E × (Store C × X)
  outcome (p, w) = (p, (w.store, w.outside))

  abbrev pub ended : List String → List String × (Store C × X) → Phase X P E × (Store C × X)
  ended o (names, w) = (finished (o ++ names), w)

  -- The worker reaches an outcome in some number of steps.
  abbrev pub Reaches : Phase X P E × Shared C X → Phase X P E × (Store C × X) → Type 0
  Reaches out end = (n : ℕ) × (outcome (alone n out) ≡ end)

  after_step :
      (p : Phase X P E) (w : Shared C X) (end : Phase X P E × (Store C × X))
      → Reaches (advance r timing config handlers event_id event_type payload p w) end
      → Reaches (p, w) end
  unfolding alone
  after_step p w end (n, e) = (suc n, e)

  append_nil : (names : List String) → names ≡ names ++ []
  append_nil [] = refl
  append_nil (x ∷ names) = ap (λ t. x ∷ t) (append_nil names)

  loop : List String → List (Handler X P E) → Store C × X → List String × (Store C × X)
  loop d hs = visit_all r client timing config handlers d event_id event_type payload hs

  loop_done :
      (d : List String) (hs : List (Handler X P E)) (o : List String) (w : Shared C X)
      → Reaches (visiting d hs o, w) (ended o (loop d hs (w.store, w.outside)))
  unfolding visit_all visit advance loop alone
  loop_done d [] o w = (1, λ i. (finished (append_nil o i), (w.store, w.outside)))
  loop_done d (h ∷ hs) o w = elim (Bool-cases (contains h.name d)) [
    | inl old ↦ after_step (visiting d (h ∷ hs) o) w _ (rw old (loop_done d hs o w))
    | inr new ↦ after_step (visiting d (h ∷ hs) o) w _ (
        rw new (
          judging (λ o' w'. loop_done d hs o' w')
            (retry_with_backoff timing config.retry (λ e. true) (h.run event_type payload)
              w.outside)))
  ]
    where
      judging :
          ((o' : List String) (w' : Shared C X)
            → Reaches (visiting d hs o', w') (ended o' (loop d hs (w'.store, w'.outside))))
          → (out : Result (Failure E) ⊤ × X)
          → let (name, s) =
              settle r client timing config handlers event_id event_type h.name w.store out in
            let (names, s') = loop d hs s in
            Reaches
              (judged r timing config handlers event_id event_type payload h d hs o w out)
              (ended o (cons_option r client timing config handlers name names, s'))
      judging ih (ok a, x) = after_step _ _ _ (
          ih o (record w {
            store = record_handler_done r config.idempotency event_id event_type h.name w.store;
            outside = x;
            returned = w.returned ++ h.name ∷ [];
          }))
      judging ih (err e, x) =
          let w' : Shared C X = record w { outside = x } in
          let rest = ih (o ++ h.name ∷ []) w' in
          (
            rest.0,
            rest.1 ∙ λ i. (
              finished (append_assoc o (h.name ∷ []) (loop d hs (w.store, x)).0 i),
              (loop d hs (w.store, x)).1,
            ),
          )

  -- A worker alone ends where `process_event` does: with its outstanding handlers, its store and its
  -- world outside.
  pub alone-process_event :
      (w : Shared C X)
      → Reaches
          (starting, w)
          (ended [] (
            process_event r client timing config handlers event_id event_type payload
              (w.store, w.outside)))
  unfolding process_event advance loop
  alone-process_event w =
      let (d, s) = completed_handlers r config.idempotency event_id w.store in
      after_step starting w _ (loop_done d handlers [] (record w { store = s }))
