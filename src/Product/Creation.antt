-- ===== src/Product/Creation.antt =====
-- `create_product` of app/product/service.py. The database gives the id.
use commerceops_ai_platform.Base.{
  ℕ, ◌≡◌, Bool, Option, String, ltb, ◌==◌, if◌then◌else◌, insert, lookup-insert, arith,
}
use commerceops_ai_platform.Cache.{Redis}
use commerceops_ai_platform.Product.Data.{Product, CacheKey, stock_of}
use commerceops_ai_platform.Product.Stock.{Session}

pub record ProductCreate : Type 0 where
  pub name : String
  pub description : Option String
  pub price : ℕ
  pub stock_quantity : ℕ

-- `Field(gt=0)`; a stock below 0 is no `ℕ`.
abbrev pub is_valid : ProductCreate → Bool
is_valid payload = ltb 0 payload.price

abbrev pub row_of : ProductCreate → Product
row_of payload = record {
  name = payload.name;
  description = payload.description;
  price = payload.price;
  stock_quantity = payload.stock_quantity;
}

module _ {C V : Type 0} (r : Redis C CacheKey V) where
  unfoldable pub create_product : ProductCreate → ℕ → Session r → (ℕ × Product) × Session r
  create_product payload id (t, c) =
      let product = row_of payload in ((id, product), (insert id product t, c))

  -- A new product has the stock of the request, every other one keeps its own, and no key of the
  -- cache changes.
  pub create_product_lem :
      (payload : ProductCreate) (id j : ℕ) (s : Session r)
      → let (created, s') = create_product payload id s in
        (stock_of s'.0 j ≡ (if j == id then payload.stock_quantity else stock_of s.0 j))
        × (s'.1 ≡ s.1)
  unfolding create_product
  create_product_lem payload id j (t, c) =
      (ground (arith, lookup-insert j id (row_of payload) t), ground arith)
