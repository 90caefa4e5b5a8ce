-- ===== src/Product/Data.antt =====
-- app/product/models.py, app/product/schemas.py and the errors of app/product/service.py.
use commerceops_ai_platform.Base.{ℕ, Option, none, some, String, Table, lookup}

-- The row of `Product` without its key and its two timestamps.
pub record Product : Type 0 where
  pub name : String
  pub description : Option String
  pub price : ℕ
  pub stock_quantity : ℕ

-- An `HTTPException` by its status code.
pub data HttpError : Type 0 where
  not_found : HttpError
  conflict : HttpError

-- The f-strings `product:{id}` and `products:list:{skip}:{limit}`.
pub data CacheKey : Type 0 where
  product : ℕ → CacheKey
  product_list : ℕ → ℕ → CacheKey

-- One entry of the list that `reserve_stock` returns.
pub record Reserved : Type 0 where
  pub product_id : ℕ
  pub quantity : ℕ
  pub unit_price : ℕ

-- The stock of a product, 0 where there is no row.
abbrev pub stock_of : Table Product → ℕ → ℕ
stock_of t k = elim (lookup k t) [ none ↦ 0 | some p ↦ p.stock_quantity ]
