-- ===== src/Idempotency/Claims.antt =====
-- The lease of app/core/idempotency.py while Redis answers and its key stands.
use commerceops_ai_platform.Base.{
  ◌≡◌, ◌⊎◌, inl, inr, Bool-cases, Option-cases, true, false, String, List, if◌then◌else◌,
}
use commerceops_ai_platform.Cache.{Redis, cache_get_json}
use commerceops_ai_platform.Cache.Lasting.{
  IsLasting, stands-cache_get_json, stands-cache_set_json, cache_set_if_absent-Decided,
}
use commerceops_ai_platform.Idempotency.{
  EventKey, lease, handlers_done, Settings, Store, is_empty, handler_names, refresh_cache,
  acquire_lease, completed_handlers, record_handler_done,
}

module _ {C : Type 0} (r : Redis C EventKey (List String)) (settings : Settings) (event_id : String)
    (stands : C → Type 0) (lasting : IsLasting r (lease event_id) stands) where
  -- The lease is granted exactly where it is not held, and is held afterwards.
  pub acquire_lease-Decided :
      (s : Store C)
      → let (granted, s') = acquire_lease r settings event_id s in
        (((granted ≡ true) × ¬ stands s.cache) ⊎ ((granted ≡ false) × stands s.cache))
        × stands s'.cache
  unfolding acquire_lease
  acquire_lease-Decided s =
      cache_set_if_absent-Decided r (lease event_id) stands lasting
        settings.idempotency_lease_ttl_seconds s.cache

  refresh_cache-stands :
      (names : List String) (c : C) → stands c → stands (refresh_cache r settings event_id names c)
  unfolding refresh_cache
  refresh_cache-stands names c h =
      stands-cache_set_json r (lease event_id) stands lasting settings.cache_enabled
        (handlers_done event_id) names settings.sqs_idempotency_ttl_seconds c h

  read-stands :
      (s : Store C)
      → stands s.cache
      → stands (cache_get_json r settings.cache_enabled (handlers_done event_id) s.cache).1
  read-stands s h =
      stands-cache_get_json r (lease event_id) stands lasting settings.cache_enabled
        (handlers_done event_id) s.cache h

  missed-stands :
      (names : List String) (c : C)
      → stands c
      → stands (if is_empty names then c else refresh_cache r settings event_id names c)
  missed-stands names c h = elim (Bool-cases (is_empty names)) [
    | inl none_found ↦ rw none_found h
    | inr found ↦ rw found (refresh_cache-stands names c h)
  ]

  pub completed_handlers-stands :
      (s : Store C) → stands s.cache → stands (completed_handlers r settings event_id s).1.cache
  unfolding completed_handlers
  completed_handlers-stands s h =
      elim (Option-cases
        (cache_get_json r settings.cache_enabled (handlers_done event_id) s.cache).0) [
          | inl miss ↦
              rw (miss, completed_handlers)
                (missed-stands (handler_names event_id s.rows) _ (read-stands s h))
          | inr (names, hit) ↦ rw (hit, completed_handlers) (read-stands s h)
        ]

  pub record_handler_done-stands :
      (event_type name : String) (s : Store C)
      → stands s.cache
      → stands (record_handler_done r settings event_id event_type name s).cache
  unfolding record_handler_done
  record_handler_done-stands event_type name s h = refresh_cache-stands _ _ (read-stands s h)
