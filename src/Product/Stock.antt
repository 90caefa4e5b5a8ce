-- ===== src/Product/Stock.antt =====
-- app/product/service.py, `reserve_stock` and `release_stock`. `db.get` sees the session's own
-- uncommitted changes. A raise ends the request, and the session is closed without a commit.
pub mod Sorted
pub mod Reserve
pub mod Release
mod Tests
use commerceops_ai_platform.Base.{
  ℕ, ◌+◌, ◌-◌, Option, none, some, List, [], ◌∷◌, ltb, leb, if◌then◌else◌, Result, ok, err, Exec,
  pure, ◌>>=◌, Table, lookup, insert, Bool,
}
use commerceops_ai_platform.Cache.{Redis, cache_delete}
use commerceops_ai_platform.Product.Data.{
  Product, HttpError, not_found, conflict, CacheKey, product, Reserved,
}

-- An order line as the service takes it, `(product_id, quantity)`.
abbrev pub Item : Type 0
Item = ℕ × ℕ

-- `sorted(items, key=lambda x: x[0])`, which is stable.
pub insert_sorted : Item → List Item → List Item
insert_sorted x [] = x ∷ []
insert_sorted x (y ∷ ys) = if leb x.0 y.0 then x ∷ y ∷ ys else y ∷ insert_sorted x ys

pub sorted : List Item → List Item
unfolding insert_sorted
sorted [] = []
sorted (x ∷ xs) = insert_sorted x (sorted xs)

module _ {C V : Type 0} (r : Redis C CacheKey V) where
  -- The open transaction's view of the table, and the cache, which no rollback undoes.
  abbrev pub Session : Type 0
  Session = Table Product × C

  abbrev set_stock : ℕ → Product → ℕ → Session → Session
  set_stock k p n (t, c) =
      (insert k (record p { stock_quantity = n }) t, cache_delete r (product k ∷ []) c)

  -- The body of the loop of `reserve_stock`.
  pub reserve_one : Item → Exec Session HttpError Reserved
  reserve_one (k, quantity) (t, c) = elim (lookup k t) [
    | none ↦ (err not_found, (t, c))
    | some p ↦ if ltb p.stock_quantity quantity then (err conflict, (t, c)) else (
      ok (record { product_id = k; quantity = quantity; unit_price = p.price }),
      set_stock k p (p.stock_quantity - quantity) (t, c),
    )
  ]

  pub reserve_all : List Item → Exec Session HttpError (List Reserved)
  unfolding reserve_one
  reserve_all [] = pure []
  reserve_all (i ∷ is) = do one ← reserve_one i; rest ← reserve_all is; pure (one ∷ rest)

  -- The transaction: what a raise leaves in the table is rolled back.
  abbrev pub finish :
      Table Product
      → Result HttpError (List Reserved) × Session
      → Result HttpError (List Reserved) × Session
  finish before (ok reserved, (t, c)) = (ok reserved, (t, c))
  finish before (err e, (t, c)) = (err e, (before, c))

  unfoldable pub reserve_stock : List Item → Exec Session HttpError (List Reserved)
  unfolding reserve_all sorted
  reserve_stock items (t, c) = finish t (reserve_all (sorted items) (t, c))

  -- The body of the loop of `release_stock`: a missing product is logged and skipped.
  pub release_one : Item → Session → Session
  release_one (k, quantity) (t, c) = elim (lookup k t) [
    | none ↦ (t, c)
    | some p ↦ set_stock k p (p.stock_quantity + quantity) (t, c)
  ]

  pub release_all : List Item → Session → Session
  unfolding release_one
  release_all [] s = s
  release_all (i ∷ is) s = release_all is (release_one i s)

  unfoldable pub release_stock : List Item → Session → Session
  unfolding release_all sorted
  release_stock items s = release_all (sorted items) s
