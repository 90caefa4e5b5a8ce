-- ===== src/System/Requests.antt =====
-- Requests of the Order service, one after another, from an empty table of orders.
use commerceops_ai_platform.Base.{ℕ, ◌+◌, ◌≤◌, List, [], ◌∷◌, Table, String, arith}
use commerceops_ai_platform.Cache.{Redis}
use commerceops_ai_platform.Product.{CacheKey}
use commerceops_ai_platform.Product.Stock.{Item, Session}
use commerceops_ai_platform.Order.{Database, Peers, create_order, cancel_order}
use commerceops_ai_platform.Order.Holdings.{held}
use commerceops_ai_platform.Order.Stocked.{IsStocked}
use commerceops_ai_platform.Order.Conservation.{
  IsCovered, create_order-IsCovered, cancel_order-IsCovered,
}
use commerceops_ai_platform.System.{Process, Wiring, peers}
use commerceops_ai_platform.System.Stock.{IsLossless}
use commerceops_ai_platform.System.Stocked.{stock, peers-IsStocked}

-- The requests of app/order/router.py that change state.
pub data Request : Type 0 where
  create : (customer_id : ℕ) → List Item → Request
  cancel : (order_id : ℕ) → Request

module _ {S : Type 0} (p : Peers S) where
  unfoldable pub serve : Request → Database × S → Database × S
  serve (create customer_id items) (db, s) = (create_order p customer_id items (db, s)).1
  serve (cancel order_id) (db, s) = (cancel_order p order_id (db, s)).1

  unfoldable pub run : List Request → Database × S → Database × S
  unfolding serve
  run [] w = w
  run (q ∷ qs) w = run qs (serve q w)

  module _ (left : S → ℕ → ℕ) (laws : IsStocked left p) (bound : ℕ → ℕ) where
    serve-IsCovered :
        (q : Request) (db : Database) (s : S)
        → IsCovered left p laws bound (db, s)
        → IsCovered left p laws bound (serve q (db, s))
    unfolding serve
    serve-IsCovered (create c items) db s v =
        create_order-IsCovered left p laws bound c items db s v
    serve-IsCovered (cancel id) db s v = cancel_order-IsCovered left p laws bound id db s v

    pub run-IsCovered :
        (qs : List Request) (w : Database × S)
        → IsCovered left p laws bound w
        → IsCovered left p laws bound (run qs w)
    unfolding run
    run-IsCovered [] w v = v
    run-IsCovered (q ∷ qs) (db, s) v = run-IsCovered qs (serve q (db, s)) (serve-IsCovered q db s v)

module _ {C V X : Type 0} (r : Redis C CacheKey V) (part : X → Session r) (w : Wiring X)
    (laws : IsLossless r part w) where
  -- Over exchanges that lose no reply, whatever requests to create and to cancel orders are made one
  -- after another from an empty table of orders, and however retries, breakers, bulkheads, payments
  -- and the Product service answer: the stock of a product that is left and what the stored orders
  -- keep of it never exceed the stock at the start. Nothing is oversold.
  pub never_oversold :
      (customers : Table String) (next_id : ℕ) (process : Process X) (qs : List Request) (k : ℕ)
      → let (db, s) =
          run
            (peers w)
            qs
            (record { customers = customers; orders = []; next_id = next_id }, process) in
        stock r part w laws s k + held db.orders k ≤ stock r part w laws process k
  never_oversold customers next_id process qs k =
      (run-IsCovered (peers w) (stock r part w laws) (peers-IsStocked r part w laws)
          (stock r part w laws process) qs
          (record { customers = customers; orders = []; next_id = next_id }, process)
          (record { fresh = tt; covered = λ k. omega arith })).covered
        k
