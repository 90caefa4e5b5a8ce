-- ===== src/Product/Catalog/Fresh.antt =====
-- The cached copy of a product after an update.
use commerceops_ai_platform.Base.{
  ℕ, ◌≡◌, inl, inr, Bool, none, some, Option-cases, [], ◌∷◌, ok, Table, lookup, lookup-insert_self,
}
use commerceops_ai_platform.Cache.{Redis, cache_get_json, cache_delete}
use commerceops_ai_platform.Cache.Laws.{IsRedis, cache_get_json-holds}
use commerceops_ai_platform.Product.Data.{Product, CacheKey, product}
use commerceops_ai_platform.Product.Catalog.{View, update_product}

module _ {C : Type 0} (r : Redis C CacheKey View) (holds : C → CacheKey → View → Type 0)
    (laws : IsRedis r holds) where
  delete_misses :
      (enabled : Bool) (k : ℕ) (c : C)
      → (r.delete (product k ∷ []) c).0 ≡ ok tt
      → (cache_get_json r enabled (product k) (cache_delete r (product k ∷ []) c)).0 ≡ none
  unfolding cache_delete
  delete_misses enabled k c answered =
      elim (Option-cases (cache_get_json r enabled (product k) (r.delete (product k ∷ []) c).1).0) [
        | inl miss ↦ miss
        | inr (v, hit) ↦ absurd (
            laws.holds-delete_self (product k) v c answered (
              cache_get_json-holds r holds laws enabled (product k) v
                (r.delete (product k ∷ []) c).1 hit))
      ]

  -- Where Redis keeps to its laws: after the update of a product that exists, with the deletion of
  -- its key answered by Redis, the row has the change and the next read of the cache misses.
  pub update_product_invalidates :
      (enabled : Bool) (k : ℕ) (change : Product → Product) (t : Table Product) (c : C)
      (p : Product)
      → lookup k t ≡ some p
      → (r.delete (product k ∷ []) c).0 ≡ ok tt
      → let (_, (t', c')) = update_product r k change (t, c) in
        (lookup k t' ≡ some (change p)) × ((cache_get_json r enabled (product k) c').0 ≡ none)
  unfolding update_product
  update_product_invalidates enabled k change t c p found answered =
      rw (found, update_product)
        (lookup-insert_self k (change p) t, delete_misses enabled k c answered)
