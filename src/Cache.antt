-- ===== src/Cache.antt =====
-- app/core/cache.py. Redis and the random source are parameters: each operation may fail, and what
-- a key yields may vanish at any time. Every helper turns a failure into a miss or a no-op.
pub mod Laws
pub mod Lasting
pub mod Down
mod Tests
use commerceops_ai_platform.Base.{
  ℕ, ◌+◌, ◌-◌, ◌/◌, max, Bool, true, false, Option, none, some, List, [], ◌∷◌, if◌then◌else◌,
  Result, ok, err,
}

-- `redis.RedisError`
pub data RedisError : Type 0 where
  redis_error : RedisError

-- The text of a key, by what `json.loads` makes of it; `undecodable` raises `ValueError`.
pub data Raw (V : Type 0) : Type 0 where
  decoded : V → Raw V
  undecodable : Raw V

-- The client `redis_client` over the state `C`, with keys `K` and values `V`. `randint j` stands for
-- `random.randint(-j, j) + j`.
pub record Redis (C K V : Type 0) : Type 0 where
  pub get : K → C → Result RedisError (Option (Raw V)) × C
  pub set : K → V → ℕ → C → Result RedisError (Unit {0}) × C
  pub set_nx : K → ℕ → C → Result RedisError Bool × C
  pub delete : List K → C → Result RedisError (Unit {0}) × C
  pub ping : C → Result RedisError Bool × C
  pub randint : ℕ → C → ℕ × C

-- `max(1, int(base_ttl_seconds * 0.1))`
unfoldable pub jitter_of : ℕ → ℕ
jitter_of base_ttl_seconds = max 1 (base_ttl_seconds / 10)

module _ {C K V : Type 0} (r : Redis C K V) where
  pub jittered_ttl : ℕ → C → ℕ × C
  unfolding jitter_of
  jittered_ttl base_ttl_seconds c =
      let jitter = jitter_of base_ttl_seconds in
      let (draw, c') = r.randint jitter c in (base_ttl_seconds + draw - jitter, c')

  abbrev json_of : Result RedisError (Option (Raw V)) → Option V
  json_of (ok (some (decoded v))) = some v
  json_of (ok (some undecodable)) = none
  json_of (ok none) = none
  json_of (err e) = none

  -- The first argument is `settings.cache_enabled`.
  unfoldable pub cache_get_json : Bool → K → C → Option V × C
  cache_get_json enabled key c =
      if enabled then (let (raw, c') = r.get key c in (json_of raw, c')) else (none, c)

  unfoldable pub cache_set_json : Bool → K → V → ℕ → C → C
  unfolding jittered_ttl
  cache_set_json enabled key value ttl_seconds c =
      if enabled
      then (let (ttl, c') = jittered_ttl ttl_seconds c in (r.set key value ttl c').1)
      else c

  unfoldable pub cache_delete : List K → C → C
  cache_delete [] c = c
  cache_delete (key ∷ keys) c = (r.delete (key ∷ keys) c).1

  -- Fails open: a dead Redis grants the claim.
  unfoldable pub cache_set_if_absent : K → ℕ → C → Bool × C
  cache_set_if_absent key ttl_seconds c =
      let (answer, c') = r.set_nx key ttl_seconds c in
      (elim answer [ ok claimed ↦ claimed | err e ↦ true ], c')

  unfoldable pub cache_ping : C → Bool × C
  cache_ping c = let (answer, c') = r.ping c in (elim answer [ ok up ↦ up | err e ↦ false ], c')
