-- ===== src/Product/Catalog/Tests.antt =====
-- A read while the replica is down, and an update.
use commerceops_ai_platform.Base.{
  ℕ, ◌*◌, ◌≡◌, refl, true, false, Option, none, some, [], ◌∷◌, Result, ok, err, Table, lookup,
  arith,
}
use commerceops_ai_platform.Sessions.{DbError, with_read_retry}
use commerceops_ai_platform.Cache.{Redis, cache_get_json}
use commerceops_ai_platform.Cache.Laws.{IsRedis}
use commerceops_ai_platform.Product.Data.{Product, CacheKey, product}
use commerceops_ai_platform.Product.Catalog.{
  View, one, Side, replica, primary, Reads, Settings, get_product, update_product,
  read_with_primary_fallback,
}
use commerceops_ai_platform.Product.Catalog.Served.{Served, get_product-Served}
use commerceops_ai_platform.Product.Catalog.Fresh.{update_product_invalidates}

-- Every key has expired.
abbrev expired : Redis (Unit {0}) CacheKey View
expired = record {
  get = λ k c. (ok none, c);
  set = λ k v ttl c. (ok tt, c);
  set_nx = λ k ttl c. (ok true, c);
  delete = λ ks c. (ok tt, c);
  ping = λ c. (ok true, c);
  randint = λ j c. (2 * j, c);
}

abbrev Nowhere : Unit {0} → CacheKey → View → Type 0
Nowhere c k v = ⊥

expired-IsRedis : IsRedis expired Nowhere
expired-IsRedis = record {
  get-returns = λ k v c e. ground arith;
  holds-get = λ k j v c h. h;
  holds-set = λ k j v w ttl c h. absurd h;
  holds-set_nx = λ k j v ttl c h. h;
  holds-delete = λ ks j v c h. h;
  holds-delete_self = λ k v c e h. h;
  holds-randint = λ j k v c h. h;
  randint-le = λ j c. omega arith;
}

abbrev lamp : Product
lamp = record { name = "lamp"; description = none; price = 500; stock_quantity = 3 }

abbrev lost : DbError
lost = record { is_operational = true; connection_invalidated = true; has_needle = false }

abbrev row_of : Side → Result DbError (Option Product)
row_of replica = err lost
row_of primary = ok (some lamp)

abbrev reads : Reads ℕ
reads = record {
  get_row = λ side k s. (row_of side, s);
  list_rows = λ side skip limit s. (err lost, s);
  sleep = λ d s. s;
}

abbrev settings : Settings
settings = record { cache_enabled = true; cache_ttl_seconds = 60; db_transient_retry_attempts = 3 }

served_by_primary : (get_product reads settings expired 1 (0, tt)).0 ≡ ok (one 1 lamp)
unfolding get_product cache_get_json read_with_primary_fallback with_read_retry
served_by_primary = refl

get_product-Served_example : Served reads settings expired Nowhere expired-IsRedis 1 tt (one 1 lamp)
get_product-Served_example =
    get_product-Served reads settings expired Nowhere expired-IsRedis 1 0 tt (one 1 lamp)
      served_by_primary

abbrev shelf : Table Product
shelf = (1, lamp) ∷ []

abbrev dearer : Product → Product
dearer p = record p { price = 600 }

update_product_invalidates_example :
    (lookup 1 (update_product expired 1 dearer (shelf, tt)).1.0 ≡ some (dearer lamp))
    × ((cache_get_json expired true (product 1) (update_product expired 1 dearer (shelf, tt)).1.1).0
        ≡ none)
update_product_invalidates_example =
    update_product_invalidates expired Nowhere expired-IsRedis true 1 dearer shelf tt lamp refl refl
