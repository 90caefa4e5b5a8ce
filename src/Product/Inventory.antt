-- ===== src/Product/Inventory.antt =====
-- What app/product/internal_router.py promises, without tables, prices, caches or locks: a stock for
-- each product, lowered and raised as a whole.
pub mod Refinement
mod Tests
use commerceops_ai_platform.Base.{
  ℕ, ◌+◌, ◌-◌, Bool, true, false, ◌&&◌, Option, none, some, List, [], ◌∷◌, leb, if◌then◌else◌,
}
use commerceops_ai_platform.Product.Stock.{Item}
use commerceops_ai_platform.Product.Stock.Sorted.{ordered}
use commerceops_ai_platform.Product.Routes.{is_request}

-- The stock of each product, where there is one.
abbrev pub Inventory : Type 0
Inventory = ℕ → Option ℕ

pub data Movement : Type 0 where
  reserve release : List Item → Movement

pub data Answer : Type 0 where
  granted refused invalid : Answer

abbrev pub in_stock : Option ℕ → ℕ
in_stock none = 0
in_stock (some n) = n

-- Of no product of the lines is more ordered, over the whole request, than is in stock.
unfoldable pub fits : Inventory → List Item → List Item → Bool
fits inventory whole [] = true
fits inventory whole ((k, quantity) ∷ is) =
    leb (ordered whole k) (in_stock (inventory k)) && fits inventory whole is

abbrev pub lower : List Item → Inventory → Inventory
lower items inventory k = elim (inventory k) [ none ↦ none | some n ↦ some (n - ordered items k) ]

abbrev pub raise : List Item → Inventory → Inventory
raise items inventory k = elim (inventory k) [ none ↦ none | some n ↦ some (n + ordered items k) ]

unfoldable pub move : Movement → Inventory → Answer × Inventory
unfolding fits
move (reserve items) inventory =
    if is_request items
    then (if fits inventory items items
        then (granted, lower items inventory)
        else (refused, inventory))
    else (invalid, inventory)
move (release items) inventory =
    if is_request items then (granted, raise items inventory) else (invalid, inventory)

unfoldable pub move_all : List Movement → Inventory → List Answer × Inventory
unfolding move
move_all [] inventory = ([], inventory)
move_all (m ∷ ms) inventory =
    let (answer, inventory') = move m inventory in
    let (answers, inventory'') = move_all ms inventory' in (answer ∷ answers, inventory'')
