-- ===== src/Product/Catalog/Served.antt =====
-- Where the product that a read returns comes from.
use commerceops_ai_platform.Base.{
  ℕ, ◌≡◌, refl, sym, ap, subst, ◌∙◌, ◌⊎◌, inl, inr, Bool-cases, Option, none, some, Option-cases,
  Result, ok, err, arith, Exec,
}
use commerceops_ai_platform.Sessions.{
  ReadError, db, other, DbError, with_read_retry, with_read_retry-Called,
}
use commerceops_ai_platform.Cache.{Redis, cache_get_json}
use commerceops_ai_platform.Cache.Laws.{IsRedis, cache_get_json-holds}
use commerceops_ai_platform.Product.Data.{Product, HttpError, CacheKey, product}
use commerceops_ai_platform.Product.Catalog.{
  View, one, Side, replica, primary, Reads, Settings, is_replica_connection_error, fall_back,
  read_with_primary_fallback, found, load, keep, shown, get_product,
}

module _ {S : Type 0} (reads : Reads S) (settings : Settings) where
  -- Some call of the read, on one of the two sides, gave this.
  abbrev Gave :
      {A : Type 0}
      → (Side → Exec S (ReadError HttpError) A)
      → Result (ReadError HttpError) A
      → Type 0
  Gave fn o = (side : Side) × (s : S) × ((fn side s).0 ≡ o)

  fall_back-Gave :
      {A : Type 0} (fn : Side → Exec S (ReadError HttpError) A)
      (out : Result (ReadError HttpError) A × S)
      → Gave fn out.0
      → Gave fn (fall_back reads settings fn out).0
  fall_back-Gave fn (ok a, s) g = g
  fall_back-Gave fn (err (other h), s) g = g
  fall_back-Gave fn (err (db e), s) g = elim (Bool-cases (is_replica_connection_error e)) [
    | inl lost ↦ rw lost (primary, s, refl)
    | inr kept ↦ rw kept g
  ]

  read_with_primary_fallback-Gave :
      {A : Type 0} (fn : Side → Exec S (ReadError HttpError) A) (s : S)
      → Gave fn (read_with_primary_fallback reads settings fn s).0
  unfolding read_with_primary_fallback
  read_with_primary_fallback-Gave fn s =
      let (m, e) =
        with_read_retry-Called reads.sleep (fn replica) settings.db_transient_retry_attempts s in
      fall_back-Gave fn
        (with_read_retry reads.sleep (fn replica) settings.db_transient_retry_attempts s)
        (replica, m, ap (λ o. o.0) e)

  module _ {C : Type 0} (r : Redis C CacheKey View) (holds : C → CacheKey → View → Type 0)
      (laws : IsRedis r holds) where
    -- A view of a product: Redis may hold it, or a database had the row.
    abbrev pub Served : ℕ → C → View → Type 0
    Served k c v =
        holds c (product k) v
        ⊎ ((side : Side) × (s : S) × (p : Product) × ((reads.get_row side k s).0 ≡ ok (some p))
            × (v ≡ one k p))

    loaded-Served :
        (k : ℕ) (c c' : C) (out : Result (ReadError HttpError) Product × S) (v : View)
        → Gave (load reads settings k) out.0
        → (keep reads settings r (product k) c' (shown reads settings r (one k) out)).0 ≡ ok v
        → Served k c v
    loaded-Served k c c' (err e, s') v g h = absurd (ground arith)
    loaded-Served k c c' (ok p, s') v (side, s, e) h =
        let (p', f, same) = row (reads.get_row side k s).0 refl in inr (side, s, p', f, same)
      where
        row :
            (o : Result DbError (Option Product))
            → (reads.get_row side k s).0 ≡ o
            → (p : Product) × ((reads.get_row side k s).0 ≡ ok (some p)) × (v ≡ one k p)
        row (ok (some q)) f =
            let same : ◌≡◌ {A = Result (ReadError HttpError) Product} (ok q) (ok p) =
              sym (ap (found reads settings) f) ∙ e in
            (q, f, ground (arith, same, h))
        row (ok none) f = absurd (ground (arith, sym (ap (found reads settings) f) ∙ e))
        row (err x) f = absurd (ground (arith, sym (ap (found reads settings) f) ∙ e))

    -- Where Redis keeps to its laws, whatever fails and falls back: a product that `get_product`
    -- returns is one that Redis may hold under the product's key, or a row that the replica or the
    -- primary had under this id.
    pub get_product-Served :
        (k : ℕ) (s : S) (c : C) (v : View)
        → (get_product reads settings r k (s, c)).0 ≡ ok v
        → Served k c v
    unfolding get_product
    get_product-Served k s c v h =
        elim (Option-cases (cache_get_json r settings.cache_enabled (product k) c).0) [
          | inl miss ↦
              loaded-Served k c (cache_get_json r settings.cache_enabled (product k) c).1
                (read_with_primary_fallback reads settings (load reads settings k) s) v
                (read_with_primary_fallback-Gave (load reads settings k) s)
                (rw (miss, get_product) at h)
          | inr (w, hit) ↦
              let same : ◌≡◌ {A = Result (ReadError HttpError) View} (ok w) (ok v) =
                rw (hit, get_product) at h in
              let value : w ≡ v = ground (arith, same) in
              inl (
                subst (holds c (product k)) value
                  (cache_get_json-holds r holds laws settings.cache_enabled (product k) w c hit))
        ]
