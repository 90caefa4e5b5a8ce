-- ===== src/Product/Pages/Tests.antt =====
-- A product whose price is changed, and one whose price is set to `null`.
use commerceops_ai_platform.Base.{ℕ, ◌≡◌, refl, true, none, [], ◌∷◌, ok, err}
use commerceops_ai_platform.Cache.{Redis}
use commerceops_ai_platform.Product.Data.{CacheKey}
use commerceops_ai_platform.Product.Catalog.{View}
use commerceops_ai_platform.Product.Stock.{Session}
use commerceops_ai_platform.Product.Pages.{
  unset, null, value, Field, ProductUpdate, changed, put_product, Put, put_product-Put,
}

-- Every key has expired.
abbrev expired : Redis (Unit {0}) CacheKey View
expired = record {
  get = λ k c. (ok none, c);
  set = λ k v ttl c. (ok tt, c);
  set_nx = λ k ttl c. (ok true, c);
  delete = λ ks c. (ok tt, c);
  ping = λ c. (ok true, c);
  randint = λ j c. (j, c);
}

abbrev shelf : Session expired
shelf =
    ((4, record { name = "lamp"; description = none; price = 500; stock_quantity = 10 }) ∷ [], tt)

abbrev priced : Field ℕ → ProductUpdate
priced price = record { name = unset; description = null; price = price; stock_quantity = unset }

-- `null` passes the validation, and the column refuses it.
null_price : (put_product expired 4 (priced null) shelf).0 ≡ err 500
unfolding put_product changed
null_price = refl

put_product-Put_example :
    Put expired 4 (priced (value 650)) shelf (put_product expired 4 (priced (value 650)) shelf)
put_product-Put_example = put_product-Put expired 4 (priced (value 650)) shelf
