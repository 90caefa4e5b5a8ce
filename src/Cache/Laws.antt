-- ===== src/Cache/Laws.antt =====
-- What the helpers of app/core/cache.py rely on, and what they promise.
use commerceops_ai_platform.Base.{
  ℕ, ◌+◌, ◌*◌, ◌/◌, ◌≤◌, ◌<◌, ◌≡◌, ◌⊎◌, inl, inr, max, Bool, true, false, some, List, [], ◌∷◌, ok,
  arith,
}
use commerceops_ai_platform.Cache.{
  Redis, decoded, jittered_ttl, cache_get_json, cache_set_json, cache_delete, cache_set_if_absent,
}

-- The documented behaviour of Redis, by what a key may yield: `holds c k v` when a read of `k` may
-- give `v`. A read gives only what a key holds; a write adds its own value at its own key at most;
-- a deletion that answers leaves nothing at its keys; nothing else adds a value. An expiry, an
-- eviction or a lost write only takes values away, so nothing says that a key holds a value.
pub record IsRedis {C K V : Type 0} (r : Redis C K V) (holds : C → K → V → Type 0) : Type 0 where
  pub get-returns : (k : K) (v : V) (c : C) → (r.get k c).0 ≡ ok (some (decoded v)) → holds c k v
  pub holds-get : (k j : K) (v : V) (c : C) → holds (r.get k c).1 j v → holds c j v
  pub holds-set :
      (k j : K) (v w : V) (ttl : ℕ) (c : C)
      → holds (r.set k v ttl c).1 j w
      → ((j ≡ k) × (w ≡ v)) ⊎ holds c j w
  pub holds-set_nx :
      (k j : K) (v : V) (ttl : ℕ) (c : C) → holds (r.set_nx k ttl c).1 j v → holds c j v
  pub holds-delete :
      (ks : List K) (j : K) (v : V) (c : C) → holds (r.delete ks c).1 j v → holds c j v
  pub holds-delete_self :
      (k : K) (v : V) (c : C)
      → (r.delete (k ∷ []) c).0 ≡ ok tt
      → ¬ holds (r.delete (k ∷ []) c).1 k v
  pub holds-randint : (j : ℕ) (k : K) (v : V) (c : C) → holds (r.randint j c).1 k v → holds c k v
  pub randint-le : (j : ℕ) (c : C) → (r.randint j c).0 ≤ 2 * j

module _ {C K V : Type 0} (r : Redis C K V) (holds : C → K → V → Type 0)
    (laws : IsRedis r holds) where
  -- Where Redis and the random source keep to their laws, a positive base TTL is jittered by at
  -- most a tenth, or by one second where a tenth is less.
  pub jittered_ttl_bounds :
      (base : ℕ) (c : C)
      → 0 < base
      → let ttl = (jittered_ttl r base c).0 in
        (base ≤ ttl + max 1 (base / 10)) × (ttl ≤ base + max 1 (base / 10))
  unfolding jittered_ttl
  jittered_ttl_bounds base c h =
      let d = laws.randint-le (max 1 (base / 10)) c in (omega arith, omega arith)

  pub cache_get_json-holds :
      (enabled : Bool) (k : K) (v : V) (c : C)
      → (cache_get_json r enabled k c).0 ≡ some v
      → holds c k v
  unfolding cache_get_json
  cache_get_json-holds enabled k v c h = laws.get-returns k v c (ground arith)

  pub holds-cache_get_json :
      (enabled : Bool) (k j : K) (v : V) (c : C)
      → holds (cache_get_json r enabled k c).1 j v
      → holds c j v
  unfolding cache_get_json
  holds-cache_get_json false k j v c h = h
  holds-cache_get_json true k j v c h = laws.holds-get k j v c h

  pub holds-cache_set_json :
      (enabled : Bool) (k j : K) (v w : V) (ttl : ℕ) (c : C)
      → holds (cache_set_json r enabled k v ttl c) j w
      → ((j ≡ k) × (w ≡ v)) ⊎ holds c j w
  unfolding cache_set_json
  holds-cache_set_json false k j v w ttl c h = inr h
  holds-cache_set_json true k j v w ttl c h = elim (laws.holds-set k j v w _ _ h) [
    | inl new ↦ inl new
    | inr old ↦ inr (laws.holds-randint _ j w c old)
  ]

  pub holds-cache_delete :
      (ks : List K) (j : K) (v : V) (c : C) → holds (cache_delete r ks c) j v → holds c j v
  unfolding cache_delete
  holds-cache_delete [] j v c h = h
  holds-cache_delete (k ∷ ks) j v c h = laws.holds-delete (k ∷ ks) j v c h

  pub holds-cache_set_if_absent :
      (k j : K) (v : V) (ttl : ℕ) (c : C)
      → holds (cache_set_if_absent r k ttl c).1 j v
      → holds c j v
  unfolding cache_set_if_absent
  holds-cache_set_if_absent k j v ttl c h = laws.holds-set_nx k j v ttl c h
