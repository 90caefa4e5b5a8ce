-- ===== src/Product/Catalog.antt =====
-- app/product/service.py, the reads of the catalogue and `update_product`. The replica and the
-- primary are parameters; so is Redis.
pub mod Served
pub mod Fresh
mod Tests
use commerceops_ai_platform.Base.{
  ℕ, Bool, true, false, ◌&&◌, Option, none, some, List, [], ◌∷◌, if◌then◌else◌, Result, ok, err,
  Exec, Table, lookup, insert,
}
use commerceops_ai_platform.Sessions.{DbError, ReadError, db, other, with_read_retry}
use commerceops_ai_platform.Cache.{Redis, cache_get_json, cache_set_json, cache_delete}
use commerceops_ai_platform.Product.Data.{
  Product, HttpError, not_found, CacheKey, product, product_list,
}

-- A response: one product or a list of them, each with its id.
pub data View : Type 0 where
  one : ℕ → Product → View
  many : List (ℕ × Product) → View

-- The session that a read runs on.
pub data Side : Type 0 where
  replica primary : Side

-- `_is_replica_connection_error`; every error that reaches it is a `DBAPIError`.
abbrev pub is_replica_connection_error : DbError → Bool
is_replica_connection_error e =
    if e.is_operational && e.connection_invalidated then true else e.has_needle

-- What the two databases answer, over the state `S` of everything outside.
pub record Reads (S : Type 0) : Type 0 where
  pub get_row : Side → ℕ → S → Result DbError (Option Product) × S
  pub list_rows : Side → (skip limit : ℕ) → S → Result DbError (List (ℕ × Product)) × S
  pub sleep : ℕ → S → S

pub record Settings : Type 0 where
  pub cache_enabled : Bool
  pub cache_ttl_seconds : ℕ
  pub db_transient_retry_attempts : ℕ

module _ {S : Type 0} (reads : Reads S) (settings : Settings) where
  -- The `except` clause of `_read_with_primary_fallback`.
  abbrev pub fall_back :
      {A : Type 0}
      → (Side → Exec S (ReadError HttpError) A)
      → Result (ReadError HttpError) A × S
      → Result (ReadError HttpError) A × S
  fall_back fn (ok a, s) = (ok a, s)
  fall_back fn (err (other h), s) = (err (other h), s)
  fall_back fn (err (db e), s) =
      if is_replica_connection_error e then fn primary s else (err (db e), s)

  unfoldable pub read_with_primary_fallback :
      {A : Type 0} → (Side → Exec S (ReadError HttpError) A) → Exec S (ReadError HttpError) A
  read_with_primary_fallback fn s =
      fall_back fn (with_read_retry reads.sleep (fn replica) settings.db_transient_retry_attempts s)

  -- `_get_product_from_db`
  abbrev pub found : Result DbError (Option Product) → Result (ReadError HttpError) Product
  found (ok (some p)) = ok p
  found (ok none) = err (other not_found)
  found (err e) = err (db e)

  abbrev pub load : ℕ → Side → Exec S (ReadError HttpError) Product
  load k side s = let (row, s') = reads.get_row side k s in (found row, s')

  abbrev pub listed :
      Result DbError (List (ℕ × Product)) → Result (ReadError HttpError) (List (ℕ × Product))
  listed (ok rows) = ok rows
  listed (err e) = err (db e)

  abbrev pub load_list : (skip limit : ℕ) → Side → Exec S (ReadError HttpError) (List (ℕ × Product))
  load_list skip limit side s =
      let (rows, s') = reads.list_rows side skip limit s in (listed rows, s')

  module _ {C : Type 0} (r : Redis C CacheKey View) where
    -- The end of a read that missed: what was loaded goes to the cache.
    abbrev pub keep :
        CacheKey
        → C
        → Result (ReadError HttpError) View × S
        → Result (ReadError HttpError) View × (S × C)
    keep key c (ok view, s) = (
      ok view,
      (s, cache_set_json r settings.cache_enabled key view settings.cache_ttl_seconds c),
    )
    keep key c (err e, s) = (err e, (s, c))

    abbrev pub shown :
        {A : Type 0}
        → (A → View)
        → Result (ReadError HttpError) A × S
        → Result (ReadError HttpError) View × S
    shown view (ok a, s) = (ok (view a), s)
    shown view (err e, s) = (err e, s)

    unfoldable pub get_product : ℕ → S × C → Result (ReadError HttpError) View × (S × C)
    unfolding read_with_primary_fallback
    get_product k (s, c) =
        let (cached, c') = cache_get_json r settings.cache_enabled (product k) c in
        elim cached [
          | some view ↦ (ok view, (s, c'))
          | none ↦ keep (product k) c' (shown (one k) (read_with_primary_fallback (load k) s))
        ]

    unfoldable pub list_products :
        (skip limit : ℕ) → S × C → Result (ReadError HttpError) View × (S × C)
    unfolding read_with_primary_fallback
    list_products skip limit (s, c) =
        let (cached, c') = cache_get_json r settings.cache_enabled (product_list skip limit) c in
        elim cached [
          | some view ↦ (ok view, (s, c'))
          | none ↦
              keep (product_list skip limit) c'
                (shown many (read_with_primary_fallback (load_list skip limit) s))
        ]

-- `update_product` on the primary; `change` sets the fields that the payload has.
unfoldable pub update_product :
    {C : Type 0}
    → Redis C CacheKey View
    → ℕ
    → (Product → Product)
    → Table Product × C
    → Result HttpError Product × (Table Product × C)
update_product r k change (t, c) = elim (lookup k t) [
  | none ↦ (err not_found, (t, c))
  | some p ↦ (ok (change p), (insert k (change p) t, cache_delete r (product k ∷ []) c))
]
