-- ===== src/Worker/Lease.antt =====
-- app/worker.py: any number of deliveries of one event at once, each in _handle_message from
-- acquire_lease on. A delivery takes the lease, runs process_event in the steps of Worker.Race,
-- and gives the lease up where handlers are outstanding. What it does to the queue is not part of it.
pub mod Exclusive
mod Tests
use commerceops_ai_platform.Base.{ℕ, Bool, true, false, String, List, [], ◌∷◌}
use commerceops_ai_platform.Reliability.Retry.{Timing}
use commerceops_ai_platform.Cache.{Redis}
use commerceops_ai_platform.Idempotency.{EventKey, Store, acquire_lease, release_lease}
use commerceops_ai_platform.Worker.{Handler, Config}
use commerceops_ai_platform.Worker.Race.{
  Phase, starting, visiting, recording, finished, Shared, set, advance,
}

-- A delivery before `acquire_lease`, one that was refused, one in `process_event`, and one that is
-- done with it.
pub data Turn (X P E : Type 0) : Type 0 where
  waiting : Turn X P E
  skipped : Turn X P E
  serving : Phase X P E → Turn X P E
  left : (outstanding : List String) → Turn X P E

pub record Deliveries (C X P E : Type 0) : Type 0 where
  pub turn : ℕ → Turn X P E
  pub shared : Shared C X

module _ {C X P E : Type 0} (r : Redis C EventKey (List String)) (timing : Timing X)
    (config : Config) (handlers : List (Handler X P E)) (event_id event_type : String)
    (payload : P) where
  abbrev pub answered : Bool × Store C → Shared C X → Turn X P E × Shared C X
  answered (true, s) w = (serving starting, record w { store = s })
  answered (false, s) w = (skipped, record w { store = s })

  abbrev pub onward : Phase X P E × Shared C X → Turn X P E × Shared C X
  onward (p, w) = (serving p, w)

  -- What follows `process_event`.
  abbrev pub concluded : List String → Shared C X → Turn X P E × Shared C X
  concluded [] w = (left [], w)
  concluded (name ∷ names) w = (
    left (name ∷ names),
    record w { store = release_lease r config.idempotency event_id w.store },
  )

  unfoldable pub take_turn : Turn X P E → Shared C X → Turn X P E × Shared C X
  take_turn waiting w = answered (acquire_lease r config.idempotency event_id w.store) w
  take_turn skipped w = (skipped, w)
  take_turn (serving (finished outstanding)) w = concluded outstanding w
  take_turn (serving starting) w =
      onward (advance r timing config handlers event_id event_type payload starting w)
  take_turn (serving (visiting already_done rest outstanding)) w = onward (
      advance r timing config handlers event_id event_type payload
        (visiting already_done rest outstanding) w)
  take_turn (serving (recording h already_done rest outstanding)) w = onward (
      advance r timing config handlers event_id event_type payload
        (recording h already_done rest outstanding) w)
  take_turn (left outstanding) w = (left outstanding, w)

  unfoldable pub step : ℕ → Deliveries C X P E → Deliveries C X P E
  unfolding take_turn set
  step i t =
      let (p, w) = take_turn (t.turn i) t.shared in record { turn = set i p t.turn; shared = w }

  -- The deliveries that take the next steps, in turn.
  unfoldable pub run : List ℕ → Deliveries C X P E → Deliveries C X P E
  unfolding step
  run [] t = t
  run (i ∷ schedule) t = run schedule (step i t)

  -- The deliveries before their first step.
  unfoldable pub begun : Store C → X → Deliveries C X P E
  begun s x = record {
    turn = λ i. waiting;
    shared = record { store = s; outside = x; returned = [] };
  }
