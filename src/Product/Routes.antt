-- ===== src/Product/Routes.antt =====
-- app/product/internal_router.py with the requests of app/product/schemas.py: validation, and what
-- the answer carries. A quantity below 1 is refused; negative ones are refused like 0.
use commerceops_ai_platform.Base.{
  ⊤, ℕ, Bool, true, false, ◌&&◌, List, [], ◌∷◌, ltb, if◌then◌else◌, Result, ok, err,
}
use commerceops_ai_platform.Cache.{Redis}
use commerceops_ai_platform.Product.Data.{HttpError, not_found, conflict, CacheKey, Reserved}
use commerceops_ai_platform.Product.Stock.{Item, Session, reserve_stock, release_stock}

-- `quantity: int = Field(gt=0)` of each item
abbrev pub all_positive : List Item → Bool
all_positive [] = true
all_positive ((k, quantity) ∷ is) = ltb 0 quantity && all_positive is

-- `Field(min_length=1)` of the list, with the items
abbrev pub is_request : List Item → Bool
is_request [] = false
is_request (i ∷ is) = all_positive (i ∷ is)

-- The status codes of the exceptions of app/product/service.py.
abbrev pub code_of : HttpError → ℕ
code_of not_found = 404
code_of conflict = 409

-- An answer is a body, or the status code of a refusal; 422 is FastAPI's for an invalid body.
abbrev pub answer_of : {S A : Type 0} → Result HttpError A × S → Result ℕ A × S
answer_of (ok a, s) = (ok a, s)
answer_of (err e, s) = (err (code_of e), s)

module _ {C V : Type 0} (r : Redis C CacheKey V) where
  unfoldable pub reserve_route : List Item → Session r → Result ℕ (List Reserved) × Session r
  reserve_route items s =
      if is_request items then answer_of (reserve_stock r items s) else (err 422, s)

  unfoldable pub release_route : List Item → Session r → Result ℕ ⊤ × Session r
  release_route items s =
      if is_request items then (ok tt, release_stock r items s) else (err 422, s)
