-- ===== src/Order/Listing.antt =====
-- `list_orders` of app/order/service.py, and its pages.
use commerceops_ai_platform.Base.{
  ℕ, zero, suc, ◌+◌, ◌≡◌, refl, ap, sym, ◌∙◌, Bool, true, Option, none, some, List, [], ◌∷◌, ◌++◌,
  leb, ◌==◌, if◌then◌else◌, Table, arith,
}
use commerceops_ai_platform.Order.Data.{Order, Database}

-- `ORDER BY id`
abbrev insert_by_id : ℕ × Order → Table Order → Table Order
insert_by_id row [] = row ∷ []
insert_by_id row (other ∷ rows) =
    if leb row.0 other.0 then row ∷ other ∷ rows else other ∷ insert_by_id row rows

abbrev pub order_by_id : Table Order → Table Order
order_by_id [] = []
order_by_id (row ∷ rows) = insert_by_id row (order_by_id rows)

-- The condition on the customer, where there is one.
abbrev pub belongs : Option ℕ → ℕ × Order → Bool
belongs none row = true
belongs (some customer_id) row = row.1.customer_id == customer_id

abbrev pub selected : Option ℕ → Table Order → Table Order
selected customer_id [] = []
selected customer_id (row ∷ rows) =
    let rest = selected customer_id rows in if belongs customer_id row then row ∷ rest else rest

-- `OFFSET` and `LIMIT`
abbrev pub drop : {A : Type 0} → ℕ → List A → List A
drop zero xs = xs
drop (suc n) [] = []
drop (suc n) (x ∷ xs) = drop n xs

abbrev pub take : {A : Type 0} → ℕ → List A → List A
take zero xs = []
take (suc n) [] = []
take (suc n) (x ∷ xs) = x ∷ take n xs

unfoldable pub list_orders : Option ℕ → (skip limit : ℕ) → Database → Table Order
list_orders customer_id skip limit db =
    take limit (drop skip (selected customer_id (order_by_id db.orders)))

module _ {A : Type 0} where
  drop_nil : (n : ℕ) → drop {A = A} n [] ≡ []
  drop_nil zero = refl
  drop_nil (suc n) = refl

  take_nil : (n : ℕ) → take {A = A} n [] ≡ []
  take_nil zero = refl
  take_nil (suc n) = refl

  drop-drop : (m n : ℕ) (xs : List A) → drop n (drop m xs) ≡ drop (m + n) xs
  drop-drop zero n xs = ap (λ k. drop k xs) (omega arith)
  drop-drop (suc m) n [] = drop_nil n ∙ sym (drop_nil (suc m + n))
  drop-drop (suc m) n (x ∷ xs) =
      let e : suc m + n ≡ suc (m + n) = omega arith in
      drop-drop m n xs ∙ ap (λ k. drop k (x ∷ xs)) (sym e)

  take-append : (m n : ℕ) (xs : List A) → take m xs ++ take n (drop m xs) ≡ take (m + n) xs
  take-append zero n xs = ap (λ k. take k xs) (omega arith)
  take-append (suc m) n [] = take_nil n ∙ sym (take_nil (suc m + n))
  take-append (suc m) n (x ∷ xs) =
      let e : suc m + n ≡ suc (m + n) = omega arith in
      ap (λ ys. x ∷ ys) (take-append m n xs) ∙ ap (λ k. take k (x ∷ xs)) (sym e)

-- Two pages of one table, one after the other, are one page of both lengths, also where the limits
-- differ or the table ends.
pub list_orders_pages :
    (customer_id : Option ℕ) (skip limit limit' : ℕ) (db : Database)
    → list_orders customer_id skip limit db ++ list_orders customer_id (skip + limit) limit' db
      ≡ list_orders customer_id skip (limit + limit') db
unfolding list_orders
list_orders_pages customer_id skip limit limit' db =
    let rows = selected customer_id (order_by_id db.orders) in
    ap (λ ys. take limit (drop skip rows) ++ take limit' ys) (sym (drop-drop skip limit rows))
    ∙ take-append limit limit' (drop skip rows)
