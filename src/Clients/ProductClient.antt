-- ===== src/Clients/ProductClient.antt =====
-- app/clients/product_client.py: one attempt, and `reserve` and `release` behind bulkhead, breaker
-- and retry. The HTTP client is a parameter.
pub mod Answers
mod Tests
use commerceops_ai_platform.Base.{
  ⊤, ℕ, Bool, true, false, ◌&&◌, not, ◌==◌, List, leb, if◌then◌else◌, Result, ok, err,
}
use commerceops_ai_platform.Reliability.{
  Failure, raised, retries_exhausted, circuit_open, bulkhead_full,
}
use commerceops_ai_platform.Reliability.Protected.{Guarded, Setup, protected_call}
use commerceops_ai_platform.Product.{Reserved}
use commerceops_ai_platform.Product.Stock.{Item}
use commerceops_ai_platform.Payment.{Reply, timed_out, transport_error, response}
use commerceops_ai_platform.Order.{ProductError, service_error, unavailable}

-- `_client.post(path, json={"items": items})` over the state `S`, for a body `B`.
abbrev pub PostItems : Type 0 → Type 0 → Type 0
PostItems S B = List Item → S → Reply B × S

-- `_reserve_once` on what the request gave.
unfoldable pub read_reserved : Reply (List Reserved) → Result ProductError (List Reserved)
read_reserved timed_out = err unavailable
read_reserved transport_error = err unavailable
read_reserved (response status_code items) =
    if leb 500 status_code
    then err unavailable
    else if leb 400 status_code
    then err (service_error status_code)
    else ok items

-- `_release_once` on what the request gave.
unfoldable pub read_released : Reply ⊤ → Result ProductError ⊤
read_released timed_out = err unavailable
read_released transport_error = err unavailable
read_released (response status_code body) =
    if leb 500 status_code
    then err unavailable
    else if leb 400 status_code && not (status_code == 204)
    then err (service_error status_code)
    else ok tt

-- `retry_on=(ProductServiceUnavailable,)`
abbrev pub is_unavailable : ProductError → Bool
is_unavailable unavailable = true
is_unavailable (service_error n) = false

-- The `except` clauses of `reserve` and of `release`.
unfoldable pub unwrap : {A : Type 0} → Result (Failure ProductError) A → Result ProductError A
unwrap (ok a) = ok a
unwrap (err (raised e)) = err e
unwrap (err (retries_exhausted cause)) = err unavailable
unwrap (err circuit_open) = err unavailable
unwrap (err bulkhead_full) = err unavailable

module _ {S : Type 0} where
  unfoldable pub reserve_once :
      PostItems S (List Reserved) → List Item → S → Result ProductError (List Reserved) × S
  unfolding read_reserved
  reserve_once post items s = let (reply, s') = post items s in (read_reserved reply, s')

  unfoldable pub release_once : PostItems S ⊤ → List Item → S → Result ProductError ⊤ × S
  unfolding read_released
  release_once post items s = let (reply, s') = post items s in (read_released reply, s')

module _ {S : Type 0} (setup : Setup S) where
  unfoldable pub reserve :
      PostItems S (List Reserved)
      → List Item
      → Guarded S
      → Result ProductError (List Reserved) × Guarded S
  unfolding unwrap
  reserve post items g =
      let (r, g') = protected_call setup is_unavailable (reserve_once post items) g in
      (unwrap r, g')

  unfoldable pub release : PostItems S ⊤ → List Item → Guarded S → Result ProductError ⊤ × Guarded S
  unfolding unwrap
  release post items g =
      let (r, g') = protected_call setup is_unavailable (release_once post items) g in
      (unwrap r, g')
