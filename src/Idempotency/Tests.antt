-- ===== src/Idempotency/Tests.antt =====
-- The records of one event.
use commerceops_ai_platform.Base.{◌≡◌, refl, true, none, [], ◌∷◌, arith}
use commerceops_ai_platform.Cache.{cache_get_json}
use commerceops_ai_platform.Idempotency.{Settings, Store, completed_handlers, record_handler_done}
use commerceops_ai_platform.Idempotency.OneKey.{
  Slot, one_key, Keeps, one_key-IsRedis, one_key-IsPrompt,
}
use commerceops_ai_platform.Idempotency.Forgets.{record_handler_done_forgets}
use commerceops_ai_platform.Idempotency.Records.{IsSound}

abbrev settings : Settings
settings = record {
  cache_enabled = true;
  idempotency_lease_ttl_seconds = 60;
  sqs_idempotency_ttl_seconds = 86400;
}

-- The billing handler is done, durably, and Redis knows nothing.
abbrev billed : Store Slot
billed = record {
  rows = record { event_id = "e1"; handler_name = "billing"; event_type = "order.created" } ∷ [];
  cache = none;
}

billed-IsSound : IsSound one_key settings Keeps one_key-IsRedis billed
billed-IsSound e n names h m = ground arith

-- The durable row of billing is there, and is not reported.
record_handler_done_forgets_example :
    (completed_handlers one_key settings "e1"
      (record_handler_done one_key settings "e1" "order.created" "audit" billed)).0
    ≡ "audit" ∷ []
unfolding cache_get_json
record_handler_done_forgets_example =
    record_handler_done_forgets one_key settings one_key-IsPrompt "e1" "order.created" "audit"
      billed refl refl
