-- ===== src/Cache/Lasting.antt =====
-- What the lease of app/core/cache.py relies on where it is to exclude: Redis answers
-- `SET NX`, and the key stands from the grant on until someone deletes it.
use commerceops_ai_platform.Base.{ℕ, ◌≡◌, refl, ◌⊎◌, inl, inr, Bool, true, false, ok}
use commerceops_ai_platform.Cache.{Redis, cache_get_json, cache_set_json, cache_set_if_absent}

-- The documented behaviour of `SET NX` on the key `k`, while its TTL has not passed and nothing
-- evicts it: `stands c` says that `k` is there. The command answers that it wrote the key where
-- the key was not there, and that it did not where it was; reads and writes do not remove it.
pub record IsLasting {C K V : Type 0} (r : Redis C K V) (k : K) (stands : C → Type 0) : Type 0 where
  pub set_nx-answers :
      (ttl : ℕ) (c : C)
      → (((r.set_nx k ttl c).0 ≡ ok true) × ¬ stands c)
        ⊎ (((r.set_nx k ttl c).0 ≡ ok false) × stands c)
  pub stands-set_nx : (ttl : ℕ) (c : C) → stands (r.set_nx k ttl c).1
  pub stands-get : (j : K) (c : C) → stands c → stands (r.get j c).1
  pub stands-set : (j : K) (v : V) (ttl : ℕ) (c : C) → stands c → stands (r.set j v ttl c).1
  pub stands-randint : (d : ℕ) (c : C) → stands c → stands (r.randint d c).1

module _ {C K V : Type 0} (r : Redis C K V) (k : K) (stands : C → Type 0)
    (lasting : IsLasting r k stands) where
  pub stands-cache_get_json :
      (enabled : Bool) (j : K) (c : C) → stands c → stands (cache_get_json r enabled j c).1
  unfolding cache_get_json
  stands-cache_get_json false j c h = h
  stands-cache_get_json true j c h = lasting.stands-get j c h

  pub stands-cache_set_json :
      (enabled : Bool) (j : K) (v : V) (ttl : ℕ) (c : C)
      → stands c
      → stands (cache_set_json r enabled j v ttl c)
  unfolding cache_set_json
  stands-cache_set_json false j v ttl c h = h
  stands-cache_set_json true j v ttl c h = lasting.stands-set j v _ _ (lasting.stands-randint _ c h)

  -- The claim is granted exactly where the key is not there, and the key is there afterwards.
  pub cache_set_if_absent-Decided :
      (ttl : ℕ) (c : C)
      → let (granted, c') = cache_set_if_absent r k ttl c in
        (((granted ≡ true) × ¬ stands c) ⊎ ((granted ≡ false) × stands c)) × stands c'
  unfolding cache_set_if_absent
  cache_set_if_absent-Decided ttl c = elim (lasting.set_nx-answers ttl c) [
    | inl (e, h) ↦ (inl (rw e refl, h), lasting.stands-set_nx ttl c)
    | inr (e, h) ↦ (inr (rw e refl, h), lasting.stands-set_nx ttl c)
  ]
