-- ===== src/Worker/Race.antt =====
-- `process_event` of app/worker.py by many workers that serve one event at once, as when Redis is down
-- and every worker gets the lease. A call of app/core/idempotency.py and a handler with its retries
-- are one step each, and other workers run in between.

pub mod Steps
pub mod Safe
pub mod Alone
mod Tests
use commerceops_ai_platform.Base.{
  ⊤, ℕ, ◌==◌, true, String, List, [], ◌∷◌, ◌++◌, contains, if◌then◌else◌, Result, ok, err,
}
use commerceops_ai_platform.Reliability.{Failure}
use commerceops_ai_platform.Reliability.Retry.{Timing, retry_with_backoff}
use commerceops_ai_platform.Cache.{Redis}
use commerceops_ai_platform.Idempotency.{EventKey, Store, completed_handlers, record_handler_done}
use commerceops_ai_platform.Worker.{Handler, Config}

-- Where a worker is: before `completed_handlers`, in the loop with the handlers that are left and
-- those outstanding, before `record_handler_done` of a handler that returned, or at the end.
pub data Phase (X P E : Type 0) : Type 0 where
  starting : Phase X P E
  visiting :
      (already_done : List String)
      → (rest : List (Handler X P E)) → (outstanding : List String) → Phase X P E
  recording :
      (handler : Handler X P E)
      → (already_done : List String) → (rest : List (Handler X P E)) → (outstanding : List String)
      → Phase X P E
  finished : (outstanding : List String) → Phase X P E

-- What the workers share, beside the names of the handlers in the order in which they returned.
pub record Shared (C X : Type 0) : Type 0 where
  pub store : Store C
  pub outside : X
  pub returned : List String

pub record Workers (C X P E : Type 0) : Type 0 where
  pub phase : ℕ → Phase X P E
  pub shared : Shared C X

unfoldable pub set : {A : Type 0} → ℕ → A → (ℕ → A) → ℕ → A
set i a f j = if j == i then a else f j

module _ {C X P E : Type 0} (r : Redis C EventKey (List String)) (timing : Timing X)
    (config : Config) (handlers : List (Handler X P E)) (event_id event_type : String)
    (payload : P) where
  abbrev pub listed : List String × Store C → Shared C X → Phase X P E × Shared C X
  listed (already_done, s) w = (visiting already_done handlers [], record w { store = s })

  -- The end of a handler's retries.
  abbrev pub judged :
      Handler X P E
      → List String
      → List (Handler X P E)
      → List String
      → Shared C X
      → Result (Failure E) ⊤ × X
      → Phase X P E × Shared C X
  judged h already_done rest outstanding w (ok done, x) = (
    recording h already_done rest outstanding,
    record w { outside = x; returned = w.returned ++ h.name ∷ [] },
  )
  judged h already_done rest outstanding w (err e, x) =
      (visiting already_done rest (outstanding ++ h.name ∷ []), record w { outside = x })

  unfoldable pub advance : Phase X P E → Shared C X → Phase X P E × Shared C X
  advance starting w = listed (completed_handlers r config.idempotency event_id w.store) w
  advance (visiting already_done [] outstanding) w = (finished outstanding, w)
  advance (visiting already_done (h ∷ rest) outstanding) w =
      if contains h.name already_done
      then (visiting already_done rest outstanding, w)
      else judged h already_done rest outstanding w
          (retry_with_backoff timing config.retry (λ e. true) (h.run event_type payload) w.outside)
  advance (recording h already_done rest outstanding) w = (
    visiting already_done rest outstanding,
    record w {
      store = record_handler_done r config.idempotency event_id event_type h.name w.store;
    },
  )
  advance (finished outstanding) w = (finished outstanding, w)

  unfoldable pub step : ℕ → Workers C X P E → Workers C X P E
  unfolding advance set
  step i t =
      let (p, w) = advance (t.phase i) t.shared in record { phase = set i p t.phase; shared = w }

  -- The workers that take the next steps, in turn.
  unfoldable pub run : List ℕ → Workers C X P E → Workers C X P E
  unfolding step
  run [] t = t
  run (i ∷ schedule) t = run schedule (step i t)

  -- The workers before their first step.
  unfoldable pub begun : Store C → X → Workers C X P E
  begun s x = record {
    phase = λ i. starting;
    shared = record { store = s; outside = x; returned = [] };
  }
