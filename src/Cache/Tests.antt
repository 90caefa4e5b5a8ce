-- ===== src/Cache/Tests.antt =====
-- The jitter of a TTL, with a Redis that is down.
use commerceops_ai_platform.Base.{ℕ, err, arith, ◌*◌}
use commerceops_ai_platform.Cache.{Redis, redis_error}
use commerceops_ai_platform.Cache.Laws.{IsRedis}

-- The random source draws the highest value.
abbrev down : Redis (Unit {0}) ℕ ℕ
down = record {
  get = λ k c. (err redis_error, c);
  set = λ k v ttl c. (err redis_error, c);
  set_nx = λ k ttl c. (err redis_error, c);
  delete = λ ks c. (err redis_error, c);
  ping = λ c. (err redis_error, c);
  randint = λ j c. (2 * j, c);
}

abbrev Nothing : Unit {0} → ℕ → ℕ → Type 0
Nothing c k v = ⊥

down-IsRedis : IsRedis down Nothing
down-IsRedis = record {
  get-returns = λ k v c e. ground arith;
  holds-get = λ k j v c h. h;
  holds-set = λ k j v w ttl c h. absurd h;
  holds-set_nx = λ k j v ttl c h. h;
  holds-delete = λ ks j v c h. h;
  holds-delete_self = λ k v c e h. h;
  holds-randint = λ j k v c h. h;
  randint-le = λ j c. omega arith;
}
