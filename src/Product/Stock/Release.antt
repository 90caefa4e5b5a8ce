-- ===== src/Product/Stock/Release.antt =====
-- `release_stock`, and what is left of a reservation after it.
use commerceops_ai_platform.Base.{
  ℕ, ◌+◌, ◌≡◌, inl, inr, none, some, Option-cases, List, [], ◌∷◌, ◌==◌, if◌then◌else◌, Bool, true,
  false, ok, Table, lookup, lookup-insert, arith,
}
use commerceops_ai_platform.Cache.{Redis}
use commerceops_ai_platform.Product.Data.{Product, CacheKey, Reserved, stock_of}
use commerceops_ai_platform.Product.Stock.{
  Item, Session, sorted, release_one, release_all, release_stock, reserve_stock,
}
use commerceops_ai_platform.Product.Stock.Reserve.{reserve_stock-Reservation}
use commerceops_ai_platform.Product.Stock.Sorted.{ordered, ordered-sorted}

-- The row of `k` exists.
abbrev pub has_row : Table Product → ℕ → Bool
has_row t k = elim (lookup k t) [ none ↦ false | some p ↦ true ]

module _ {C V : Type 0} (r : Redis C CacheKey V) where
  release_one_lem :
      (i : Item) (s : Session r) (j : ℕ)
      → (has_row (release_one r i s).0 j ≡ has_row s.0 j)
        × (stock_of (release_one r i s).0 j
            ≡ (if has_row s.0 j then stock_of s.0 j + (if j == i.0 then i.1 else 0) else 0))
  unfolding release_one
  release_one_lem (k, q) (t, c) j = elim (Option-cases (lookup k t)) [
    | inl missing ↦ ground arith
    | inr (p, found) ↦
        ground (arith, lookup-insert j k (record p { stock_quantity = p.stock_quantity + q }) t)
  ]

  release_all_lem :
      (is : List Item) (s : Session r) (j : ℕ)
      → (has_row (release_all r is s).0 j ≡ has_row s.0 j)
        × (stock_of (release_all r is s).0 j
            ≡ (if has_row s.0 j then stock_of s.0 j + ordered is j else 0))
  unfolding release_all
  release_all_lem [] s j = ground arith
  release_all_lem (i ∷ is) s j =
      ground (arith, release_one_lem i s j, release_all_lem is (release_one r i s) j)

  -- A release adds the released quantity, over all lines, to each product that exists, and creates
  -- and deletes no row: a product that has been deleted stays deleted.
  pub release_stock_lem :
      (items : List Item) (s : Session r) (k : ℕ)
      → (has_row (release_stock r items s).0 k ≡ has_row s.0 k)
        × (stock_of (release_stock r items s).0 k
            ≡ (if has_row s.0 k then stock_of s.0 k + ordered items k else 0))
  unfolding release_stock
  release_stock_lem items s k =
      ground (arith, release_all_lem (sorted items) s k, ordered-sorted items k)

  -- The release of what was reserved restores the stock of every product.
  pub release_stock-reserve_stock :
      (items : List Item) (s : Session r) (taken : List Reserved) (s' : Session r)
      → reserve_stock r items s ≡ (ok taken, s')
      → (k : ℕ) → stock_of (release_stock r items s').0 k ≡ stock_of s.0 k
  release_stock-reserve_stock items s taken s' h k =
      let v = reserve_stock-Reservation r items s taken s' h in
      ground (arith, v.stock k, v.prices k, release_stock_lem items s' k)
