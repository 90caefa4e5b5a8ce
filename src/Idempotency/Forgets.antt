-- ===== src/Idempotency/Forgets.antt =====
-- The cached set of a handler that is recorded after the set has expired.
use commerceops_ai_platform.Base.{
  ℕ, ◌≡◌, refl, sym, subst, true, none, some, String, List, [], ◌∷◌, ok,
}
use commerceops_ai_platform.Cache.{Redis, decoded, jittered_ttl, cache_get_json, cache_set_json}
use commerceops_ai_platform.Idempotency.{
  EventKey, handlers_done, Settings, Store, refresh_cache, completed_handlers, record_handler_done,
  names_or_none,
}

-- A Redis that answers and that has what was written to it last.
pub record IsPrompt {C K V : Type 0} (r : Redis C K V) : Type 0 where
  pub get-set :
      (k : K) (v : V) (ttl : ℕ) (c : C) → (r.get k (r.set k v ttl c).1).0 ≡ ok (some (decoded v))

module _ {C : Type 0} (r : Redis C EventKey (List String)) (settings : Settings)
    (prompt : IsPrompt r) where
  cache_get_json-cache_set_json :
      (k : EventKey) (v : List String) (ttl : ℕ) (c : C)
      → (cache_get_json r true k (cache_set_json r true k v ttl c)).0 ≡ some v
  unfolding cache_get_json cache_set_json
  cache_get_json-cache_set_json k v ttl c =
      rw (prompt.get-set k v (jittered_ttl r ttl c).0 (jittered_ttl r ttl c).1) refl

  cache_get_json-refresh_cache :
      (event_id : String) (names : List String) (c : C)
      → settings.cache_enabled ≡ true
      → (cache_get_json r settings.cache_enabled
          (handlers_done event_id)
          (refresh_cache r settings event_id names c)).0
        ≡ some names
  unfolding refresh_cache
  cache_get_json-refresh_cache event_id names c enabled =
      subst
        (λ b.
          (cache_get_json r b (handlers_done event_id) (
            cache_set_json r b (handlers_done event_id) names settings.sqs_idempotency_ttl_seconds
              c)).0
          ≡ some names)
        (sym enabled)
        (cache_get_json-cache_set_json (handlers_done event_id) names
          settings.sqs_idempotency_ttl_seconds c)

  completed_handlers_hit :
      (event_id : String) (names : List String) (s : Store C)
      → (cache_get_json r settings.cache_enabled (handlers_done event_id) s.cache).0 ≡ some names
      → (completed_handlers r settings event_id s).0 ≡ names
  unfolding completed_handlers
  completed_handlers_hit event_id names s hit = rw (hit, completed_handlers) refl

  -- A handler that is recorded when the cached set has expired leaves a set with its name alone, and
  -- with a Redis that answers `completed_handlers` then reports this one handler, whatever durable
  -- rows the event has.
  pub record_handler_done_forgets :
      (event_id event_type name : String) (s : Store C)
      → settings.cache_enabled ≡ true
      → (cache_get_json r settings.cache_enabled (handlers_done event_id) s.cache).0 ≡ none
      → (completed_handlers r settings event_id
          (record_handler_done r settings event_id event_type name s)).0
        ≡ name ∷ []
  unfolding record_handler_done
  record_handler_done_forgets event_id event_type name s enabled expired =
      let after = record_handler_done r settings event_id event_type name s in
      let c = (cache_get_json r settings.cache_enabled (handlers_done event_id) s.cache).1 in
      completed_handlers_hit event_id (name ∷ []) after (
        subst
          (λ o.
            (cache_get_json r settings.cache_enabled (handlers_done event_id)
              (refresh_cache r settings event_id (name ∷ names_or_none r settings o) c)).0
            ≡ some (name ∷ names_or_none r settings none))
          (sym expired) (cache_get_json-refresh_cache event_id (name ∷ []) c enabled))
