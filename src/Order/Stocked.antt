-- ===== src/Order/Stocked.antt =====
-- What the Order service relies on of the services that it calls, as to the stock.
use commerceops_ai_platform.Base.{⊤, ℕ, ◌+◌, ◌≤◌, List, Result, ok, err}
use commerceops_ai_platform.Product.{Reserved}
use commerceops_ai_platform.Product.Stock.{Item}
use commerceops_ai_platform.Product.Stock.Sorted.{ordered}
use commerceops_ai_platform.Payment.{PaymentRequest}
use commerceops_ai_platform.Order.Data.{ProductError, Event, Peers}
use commerceops_ai_platform.Order.{items_of}

module _ {S : Type 0} (stock : S → ℕ → ℕ) where
  -- What is returned was taken, and a failed request adds nothing.
  abbrev pub Takes : ℕ → S → Result ProductError (List Reserved) × S → Type 0
  Takes k s (ok taken, s') = stock s' k + ordered (items_of taken) k ≤ stock s k
  Takes k s (err e, s') = stock s' k ≤ stock s k

  -- A release gives back its lines at most, and nothing where it fails.
  abbrev pub Returns : ℕ → List Item → S → Result ProductError ⊤ × S → Type 0
  Returns k items s (ok released, s') = stock s' k ≤ stock s k + ordered items k
  Returns k items s (err e, s') = stock s' k ≤ stock s k

  pub record IsStocked (peers : Peers S) : Type 0 where
    pub reserve-Takes : (items : List Item) (s : S) (k : ℕ) → Takes k s (peers.reserve items s)
    pub release-Returns :
        (items : List Item) (s : S) (k : ℕ) → Returns k items s (peers.release items s)
    pub charge-le :
        (request : PaymentRequest) (s : S) (k : ℕ) → stock (peers.charge request s).1 k ≤ stock s k
    pub publish-le : (event : Event) (s : S) (k : ℕ) → stock (peers.publish event s) k ≤ stock s k
