-- ===== src/Idempotency.antt =====
-- app/core/idempotency.py and the table of app/core/models.py: the lease, the durable record of
-- each handler, and the Redis set in front of it. Sets of names are lists that are only tested for
-- membership.
pub mod Records
pub mod Claims
pub mod OneKey
pub mod Forgets
mod Tests
use commerceops_ai_platform.Base.{
  ℕ, Bool, true, false, ◌&&◌, ◌||◌, Option, none, some, String, List, [], ◌∷◌, ◌++◌, str_eq,
  contains, if◌then◌else◌,
}
use commerceops_ai_platform.Cache.{
  Redis, cache_get_json, cache_set_json, cache_delete, cache_set_if_absent,
}

-- The f-strings `event_lease:{event_id}` and `event_handlers_done:{event_id}`.
pub data EventKey : Type 0 where
  lease : String → EventKey
  handlers_done : String → EventKey

-- A row of `processed_events`: event id, handler name, event type.
pub record ProcessedEvent : Type 0 where
  pub event_id : String
  pub handler_name : String
  pub event_type : String

-- The row that the unique constraint speaks of is there.
unfoldable pub has_row : String → String → List ProcessedEvent → Bool
has_row event_id name [] = false
has_row event_id name (row ∷ rows) =
    (str_eq row.event_id event_id && str_eq row.handler_name name) || has_row event_id name rows

-- `select(ProcessedEvent.handler_name).where(ProcessedEvent.event_id == event_id)`
pub handler_names : String → List ProcessedEvent → List String
handler_names event_id [] = []
handler_names event_id (row ∷ rows) =
    let rest = handler_names event_id rows in
    if str_eq row.event_id event_id then row.handler_name ∷ rest else rest

-- `db.add` and `db.commit`: a row that breaks the unique constraint is rolled back.
pub insert_row : ProcessedEvent → List ProcessedEvent → List ProcessedEvent
unfolding has_row
insert_row row rows = if has_row row.event_id row.handler_name rows then rows else rows ++ row ∷ []

-- The settings that this module reads.
pub record Settings : Type 0 where
  pub cache_enabled : Bool
  pub idempotency_lease_ttl_seconds : ℕ
  pub sqs_idempotency_ttl_seconds : ℕ

-- Postgres and Redis.
pub record Store (C : Type 0) : Type 0 where
  pub rows : List ProcessedEvent
  pub cache : C

abbrev pub is_empty : List String → Bool
is_empty [] = true
is_empty (x ∷ xs) = false

module _ {C : Type 0} (r : Redis C EventKey (List String)) (settings : Settings) where
  -- With `ttl_seconds=None`, as the worker calls it.
  unfoldable pub acquire_lease : String → Store C → Bool × Store C
  acquire_lease event_id s =
      let (granted, c) =
        cache_set_if_absent r (lease event_id) settings.idempotency_lease_ttl_seconds s.cache in
      (granted, record s { cache = c })

  unfoldable pub release_lease : String → Store C → Store C
  release_lease event_id s = record s { cache = cache_delete r (lease event_id ∷ []) s.cache }

  pub refresh_cache : String → List String → C → C
  refresh_cache event_id handlers =
      cache_set_json r settings.cache_enabled (handlers_done event_id) handlers
        settings.sqs_idempotency_ttl_seconds

  unfoldable pub completed_handlers : String → Store C → List String × Store C
  unfolding refresh_cache handler_names
  completed_handlers event_id s =
      let (cached, c) = cache_get_json r settings.cache_enabled (handlers_done event_id) s.cache in
      elim cached [
        | some names ↦ (names, record s { cache = c })
        | none ↦
            (let handlers = handler_names event_id s.rows in
              (
                handlers,
                record s {
                  cache = if is_empty handlers then c else refresh_cache event_id handlers c;
                },
              ))
      ]

  abbrev pub names_or_none : Option (List String) → List String
  names_or_none none = []
  names_or_none (some names) = names

  unfoldable pub record_handler_done : String → String → String → Store C → Store C
  unfolding insert_row refresh_cache
  record_handler_done event_id event_type name s =
      let row : ProcessedEvent = record {
        event_id = event_id;
        handler_name = name;
        event_type = event_type;
      } in
      let rows = insert_row row s.rows in
      let (cached, c) = cache_get_json r settings.cache_enabled (handlers_done event_id) s.cache in
      record s { rows = rows; cache = refresh_cache event_id (name ∷ names_or_none cached) c }

  abbrev is_subset : List String → List String → Bool
  is_subset [] names = true
  is_subset (x ∷ xs) names = contains x names && is_subset xs names

  unfoldable pub is_fully_processed : String → List String → Store C → Bool × Store C
  unfolding completed_handlers
  is_fully_processed event_id names s =
      let (done, s') = completed_handlers event_id s in (is_subset names done, s')
