-- ===== src/Order/Tests.antt =====
-- Orders of one customer, with peers that answer everything.
use commerceops_ai_platform.Base.{ℕ, ◌+◌, ◌≡◌, refl, List, [], ◌∷◌, some, ok, lookup}
use commerceops_ai_platform.Product.{Reserved}
use commerceops_ai_platform.Product.Stock.{Item}
use commerceops_ai_platform.Payment.{success, approved}
use commerceops_ai_platform.Order.Data.{OrderStatus, paid, cancelled, Order, Database, Peers}
use commerceops_ai_platform.Order.{create_order, cancel_order}
use commerceops_ai_platform.Order.Billing.{IsBilled, create_order-IsBilled}
use commerceops_ai_platform.Order.Listing.{list_orders}
use commerceops_ai_platform.Order.Lifecycle.{Becomes, cancel_order-Follows}

abbrev line_of : List Item → List Reserved
line_of [] = []
line_of ((k, q) ∷ is) = record { product_id = k; quantity = q; unit_price = 100 } ∷ line_of is

-- The state counts the events.
abbrev peers : Peers ℕ
peers = record {
  reserve = λ items s. (ok (line_of items), s);
  release = λ items s. (ok tt, s);
  charge = λ request s. (
    record {
      order_id = request.order_id;
      status = success;
      transaction_id = "t";
      amount = request.amount;
      reason = approved;
    },
    s,
  );
  publish = λ event s. s + 1;
}

abbrev order_in : OrderStatus → Order
order_in status = record {
  customer_id = 1;
  status = status;
  total_amount = 200;
  items = line_of ((4, 2) ∷ []);
}

abbrev db : Database
db = record {
  customers = (1, "customer") ∷ [];
  orders = (1, order_in cancelled) ∷ (2, order_in paid) ∷ [];
  next_id = 3;
}

cancel_order-Follows_example :
    Becomes (order_in paid) (lookup 2 (cancel_order peers 2 (db, 0)).1.0.orders)
cancel_order-Follows_example = cancel_order-Follows peers 2 db 0 2 (order_in paid) refl

-- Two pieces at 100 are reserved and paid as order 3.
abbrev created : Order
created = order_in paid

abbrev after : Database × ℕ
after = (create_order peers 1 ((4, 2) ∷ []) (db, 0)).1

created_paid : create_order peers 1 ((4, 2) ∷ []) (db, 0) ≡ (ok created, (after.0, after.1))
unfolding create_order
created_paid = refl

create_order-IsBilled_example : IsBilled peers 3 created after.0
create_order-IsBilled_example =
    create_order-IsBilled peers 1 ((4, 2) ∷ []) db 0 created after.0 after.1 created_paid

pages_test :
    (list_orders (some 1) 0 1 db ≡ (1, order_in cancelled) ∷ [])
    × (list_orders (some 2) 0 50 db ≡ [])
unfolding list_orders
pages_test = (refl, refl)
