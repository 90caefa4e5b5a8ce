-- ===== src/Product/Inventory/Tests.antt =====
-- Requests to a shelf of two products, one of them for more than there is.
use commerceops_ai_platform.Base.{ℕ, ◌≡◌, refl, none, List, [], ◌∷◌}
use commerceops_ai_platform.Cache.Down.{down}
use commerceops_ai_platform.Product.Data.{Product}
use commerceops_ai_platform.Product.Stock.{Session, reserve_stock, release_stock}
use commerceops_ai_platform.Product.Routes.{reserve_route, release_route}
use commerceops_ai_platform.Product.Inventory.{
  Movement, reserve, release, granted, refused, invalid, move_all,
}
use commerceops_ai_platform.Product.Inventory.Refinement.{view, seen, serve_all, serve_all_refines}

abbrev piece : ℕ → Product
piece stock = record { name = "product"; description = none; price = 500; stock_quantity = stock }

abbrev shelf : Session down
shelf = ((1, piece 10) ∷ (2, piece 3) ∷ [], tt)

abbrev movements : List Movement
movements =
    reserve ((2, 2) ∷ (1, 4) ∷ [])
    ∷ reserve ((2, 1) ∷ (2, 1) ∷ [])
    ∷ reserve ((1, 0) ∷ [])
    ∷ release ((2, 2) ∷ (9, 1) ∷ [])
    ∷ []

-- The second request wants two of the one piece left, and the third one no piece.
answers_test : (serve_all down movements shelf).0 ≡ granted ∷ refused ∷ invalid ∷ granted ∷ []
unfolding serve_all reserve_route release_route reserve_stock release_stock
answers_test = refl

serve_all_refines_example :
    seen down (serve_all down movements shelf) ≡ move_all movements (view shelf.0)
serve_all_refines_example = serve_all_refines down movements shelf
