-- ===== src/Worker/Budget.antt =====
-- How often a delivery runs handlers, and how long it sleeps between their attempts.
use commerceops_ai_platform.Base.{
  ⊤, ℕ, ◌+◌, ◌*◌, ◌≤◌, ◌<◌, inl, inr, Bool-cases, true, String, List, [], ◌∷◌, All, length, sum,
  contains, Result, ok, err, arith,
}
use commerceops_ai_platform.Reliability.{Failure}
use commerceops_ai_platform.Reliability.Retry.{Timing, delays, retry_with_backoff}
use commerceops_ai_platform.Reliability.Retry.Budget.{IsMetered, retry_with_backoff_budget}
use commerceops_ai_platform.Cache.{Redis}
use commerceops_ai_platform.Idempotency.{EventKey, Store, completed_handlers}
use commerceops_ai_platform.Queue.{Sqs}
use commerceops_ai_platform.Worker.{Body, Handler, Config, settle, visit, visit_all, process_event}

module _ {C Q X P E : Type 0} (r : Redis C EventKey (List String)) (client : Sqs Q (Body P))
    (timing : Timing X) (config : Config) (handlers : List (Handler X P E)) (calls slept : X → ℕ)
    (event_id event_type : String) (payload : P) where
  -- Handlers are counted and do not sleep themselves.
  abbrev pub Metered : Handler X P E → Type 0
  Metered h = IsMetered timing (h.run event_type payload) calls slept

  -- Within `n` handlers' budgets.
  abbrev pub Spent : ℕ → X → X → Type 0
  Spent n x x' =
      (calls x' ≤ calls x + n * config.retry.attempts)
      × (slept x' ≤ slept x + n * sum (delays config.retry))

  module _ (budget : 0 < config.retry.attempts) where
    visit-Spent :
        (done : List String) (h : Handler X P E) (s : Store C) (x : X)
        → Metered h
        → Spent 1 x
            (visit r client timing config handlers done event_id event_type payload h (s, x)).1.1
    unfolding visit
    visit-Spent done h s x m = elim (Bool-cases (contains h.name done)) [
      | inl old ↦ rw (old, visit) (omega arith, omega arith)
      | inr new ↦
          rw (new, visit)
            (settled
              (retry_with_backoff timing config.retry (λ e. true) (h.run event_type payload) x)
              (retry_with_backoff_budget timing config.retry (λ e. true) (h.run event_type payload)
                calls slept m x budget))
    ]
      where
        settled :
            (out : Result (Failure E) ⊤ × X)
            → (calls out.1 ≤ calls x + config.retry.attempts)
              × (slept out.1 ≤ slept x + sum (delays config.retry))
            → Spent 1 x
                (settle r client timing config handlers event_id event_type h.name s out).1.1
        settled (ok a, x') b = (omega (arith, b.0), omega (arith, b.1))
        settled (err e, x') b = (omega (arith, b.0), omega (arith, b.1))

    visit_all-Spent :
        (done : List String) (hs : List (Handler X P E)) (w : Store C × X)
        → All Metered hs
        → Spent
            (length hs)
            w.1
            (visit_all r client timing config handlers done event_id event_type payload hs w).1.1
    unfolding visit_all
    visit_all-Spent done [] (s, x) m = (omega arith, omega arith)
    visit_all-Spent done (h ∷ hs) (s, x) m =
        let w =
          (visit r client timing config handlers done event_id event_type payload h (s, x)).1 in
        let one = visit-Spent done h s x m.0 in
        let rest = visit_all-Spent done hs w m.1 in
        (omega (arith, one.0, rest.0), omega (arith, one.1, rest.1))

  -- With a positive budget of attempts, a random source that draws at most the delay, and handlers
  -- that do not sleep themselves, a delivery makes at most `attempts` calls for each handler, and
  -- sleeps at most the sum of the un-jittered ladder for each, whatever the handlers do, whatever
  -- Redis answers and whatever jitter is drawn.
  pub process_event_budget :
      (s : Store C) (x : X)
      → 0 < config.retry.attempts
      → All Metered handlers
      → Spent
          (length handlers)
          x
          (process_event r client timing config handlers event_id event_type payload (s, x)).1.1
  unfolding process_event
  process_event_budget s x budget m =
      visit_all-Spent budget (completed_handlers r config.idempotency event_id s).0 handlers
        ((completed_handlers r config.idempotency event_id s).1, x) m
