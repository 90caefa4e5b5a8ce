-- ===== src/Cache/Down.antt =====
-- A Redis that raises at every call, for tests.
use commerceops_ai_platform.Base.{err}
use commerceops_ai_platform.Cache.{Redis, redis_error}

abbrev pub down : {K : Type 0} → Redis (Unit {0}) K (Unit {0})
down = record {
  get = λ k c. (err redis_error, c);
  set = λ k v ttl c. (err redis_error, c);
  set_nx = λ k ttl c. (err redis_error, c);
  delete = λ ks c. (err redis_error, c);
  ping = λ c. (err redis_error, c);
  randint = λ j c. (j, c);
}
