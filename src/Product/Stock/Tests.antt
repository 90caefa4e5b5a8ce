-- ===== src/Product/Stock/Tests.antt =====
-- Concrete reservations and releases, with a Redis that is down.
use commerceops_ai_platform.Base.{ℕ, ◌≡◌, refl, none, List, [], ◌∷◌, ok, err}
use commerceops_ai_platform.Cache.Down.{down}
use commerceops_ai_platform.Product.Data.{Product, conflict, Reserved}
use commerceops_ai_platform.Product.Stock.{Item, Session, reserve_stock}
use commerceops_ai_platform.Product.Stock.Reserve.{Reservation, reserve_stock-Reservation}

-- A product with a price and a stock.
abbrev priced : ℕ → ℕ → Product
priced price stock = record {
  name = "product";
  description = none;
  price = price;
  stock_quantity = stock;
}

abbrev shelf : Session down
shelf = ((1, priced 500 10) ∷ (2, priced 900 3) ∷ [], tt)

abbrev after : Session down
after = ((1, priced 500 6) ∷ (2, priced 900 2) ∷ [], tt)

-- Two lines name product 1.
abbrev basket : List Item
basket = (2, 1) ∷ (1, 3) ∷ (1, 1) ∷ []

abbrev too_much : List Item
too_much = (2, 1) ∷ (1, 11) ∷ []

abbrev line : ℕ → ℕ → ℕ → Reserved
line product_id quantity unit_price = record {
  product_id = product_id;
  quantity = quantity;
  unit_price = unit_price;
}

abbrev taken : List Reserved
taken = line 1 3 500 ∷ line 1 1 500 ∷ line 2 1 900 ∷ []

basket_reserved : reserve_stock down basket shelf ≡ (ok taken, after)
unfolding reserve_stock
basket_reserved = refl

too_much_refused :
    reserve_stock down too_much shelf ≡ (err conflict, (reserve_stock down too_much shelf).1)
unfolding reserve_stock
too_much_refused = refl

reserve_stock-Reservation_example : Reservation down basket shelf.0 after.0 taken
reserve_stock-Reservation_example =
    reserve_stock-Reservation down basket shelf taken after basket_reserved
