-- ===== src/Product/Inventory/Refinement.antt =====
-- The routes of the Product service keep what the inventory promises.
use commerceops_ai_platform.Base.{
  ℕ, ◌+◌, ◌≤◌, ◌<◌, ◌≡◌, refl, ap, ◌∙◌, ◌⊎◌, inl, inr, true, false, Bool-cases, ◌==◌, none, some,
  Option-cases, List, [], ◌∷◌, All, if◌then◌else◌, Result, ok, err, Table, lookup, arith,
}
use commerceops_ai_platform.Cache.{Redis}
use commerceops_ai_platform.Product.Data.{
  Product, HttpError, not_found, conflict, CacheKey, Reserved, stock_of,
}
use commerceops_ai_platform.Product.Stock.{Item, Session, reserve_stock, release_stock}
use commerceops_ai_platform.Product.Stock.Sorted.{ordered}
use commerceops_ai_platform.Product.Stock.Reserve.{
  price_of, reserve_stock-Reservation, reserve_stock_atomic, reserve_stock_iff,
}
use commerceops_ai_platform.Product.Stock.Release.{has_row, release_stock_lem}
use commerceops_ai_platform.Product.Routes.{
  is_request, all_positive, answer_of, reserve_route, release_route,
}
use commerceops_ai_platform.Product.Inventory.{
  Inventory, Movement, reserve, release, Answer, granted, refused, invalid, in_stock, fits, lower,
  raise, move, move_all,
}

-- What is seen of a table.
abbrev pub view : Table Product → Inventory
view t k = if has_row t k then some (stock_of t k) else none

in_stock-view : (t : Table Product) (k : ℕ) → in_stock (view t k) ≡ stock_of t k
in_stock-view t k = elim (Option-cases (lookup k t)) [
  | inl missing ↦ ground arith
  | inr (p, found) ↦ ground arith
]

fits_sound :
    (inventory : Inventory) (whole is : List Item)
    → fits inventory whole is ≡ true
    → (k : ℕ) → (ordered is k ≡ 0) ⊎ (ordered whole k ≤ in_stock (inventory k))
unfolding fits
fits_sound inventory whole [] h k = inl refl
fits_sound inventory whole ((j, q) ∷ is) h k = ground (arith, fits_sound inventory whole is _ k)

fits_complete :
    (inventory : Inventory) (whole is : List Item)
    → ((k : ℕ) → ordered whole k ≤ in_stock (inventory k))
    → fits inventory whole is ≡ true
unfolding fits
fits_complete inventory whole [] h = refl
fits_complete inventory whole ((j, q) ∷ is) h =
    ground (arith, h j, fits_complete inventory whole is h)

positive : (is : List Item) → all_positive is ≡ true → All (λ i. 0 < i.1) is
positive [] h = tt
positive ((k, q) ∷ is) h = (ground arith, positive is (ground arith))

-- What is told of an answer: 422 is an invalid request, 404 and 409 are refusals.
abbrev pub told : {B : Type 0} → Result ℕ B → Answer
told (ok body) = granted
told (err n) = if n == 422 then invalid else refused

module _ {C V : Type 0} (r : Redis C CacheKey V) where
  abbrev pub tell : {B : Type 0} → Result ℕ B × Session r → Answer × Session r
  tell (reply, s) = (told reply, s)

  unfoldable pub serve : Movement → Session r → Answer × Session r
  serve (reserve items) s = tell (reserve_route r items s)
  serve (release items) s = tell (release_route r items s)

  unfoldable pub serve_all : List Movement → Session r → List Answer × Session r
  unfolding serve
  serve_all [] s = ([], s)
  serve_all (m ∷ ms) s =
      let (answer, s') = serve m s in
      let (answers, s'') = serve_all ms s' in (answer ∷ answers, s'')

  -- What is seen of an answer and its state.
  abbrev pub seen : {A : Type 0} → A × Session r → A × Inventory
  seen (answer, s) = (answer, view s.0)

  reserve_refines :
      (items : List Item) (s : Session r)
      → is_request items ≡ true
      → seen (tell (answer_of (reserve_stock r items s))) ≡ (
          if fits (view s.0) items items
          then (granted, lower items (view s.0))
          else (refused, view s.0))
  reserve_refines items s valid = elim (Bool-cases (fits (view s.0) items items)) [
    | inl fit ↦
        let (taken, s', e) =
          (reserve_stock_iff r items s (request_positive items valid)).1 (λ k. enough fit k) in
        let v = reserve_stock-Reservation r items s taken s' e in
        rw (fit, e) (λ i. (granted, λ k. lowered s' k (v.stock k) (v.prices k) i))
    | inr unfit ↦ rw unfit (go unfit (reserve_stock r items s).0 (reserve_stock r items s).1 refl)
  ]
    where
      request_positive : (is : List Item) → is_request is ≡ true → All (λ i. 0 < i.1) is
      request_positive [] h = tt
      request_positive (i ∷ is) h = positive (i ∷ is) h

      enough : fits (view s.0) items items ≡ true → (k : ℕ) → ordered items k ≤ stock_of s.0 k
      enough fit k = ground (arith, fits_sound (view s.0) items items fit k, in_stock-view s.0 k)

      lowered :
          (s' : Session r) (k : ℕ)
          → stock_of s'.0 k + ordered items k ≡ stock_of s.0 k
          → price_of s'.0 k ≡ price_of s.0 k
          → view s'.0 k ≡ lower items (view s.0) k
      lowered s' k stock price = ground (arith, stock, price)

      go :
          fits (view s.0) items items ≡ false
          → (o : Result HttpError (List Reserved)) (s' : Session r)
          → reserve_stock r items s ≡ (o, s')
          → seen (tell (answer_of (reserve_stock r items s))) ≡ (refused, view s.0)
      go unfit (err not_found) s' e =
          rw e (ap (λ t. (refused, view t)) (reserve_stock_atomic r items s not_found s' e))
      go unfit (err conflict) s' e =
          rw e (ap (λ t. (refused, view t)) (reserve_stock_atomic r items s conflict s' e))
      go unfit (ok taken) s' e =
          let v = reserve_stock-Reservation r items s taken s' e in
          let all =
            fits_complete (view s.0) items items
              (λ k. omega (arith, v.stock k, in_stock-view s.0 k)) in
          absurd (ground (arith, all, unfit))

  release_refines :
      (items : List Item) (s : Session r)
      → view (release_stock r items s).0 ≡ raise items (view s.0)
  release_refines items s i k = raised k i
    where
      raised : (k : ℕ) → view (release_stock r items s).0 k ≡ raise items (view s.0) k
      raised k = ground (arith, release_stock_lem r items s k)

  serve_refines : (m : Movement) (s : Session r) → seen (serve m s) ≡ move m (view s.0)
  unfolding serve move reserve_route release_route
  serve_refines (reserve items) s = elim (Bool-cases (is_request items)) [
    | inr bad ↦ rw bad refl
    | inl valid ↦ rw valid (reserve_refines items s valid)
  ]
  serve_refines (release items) s = elim (Bool-cases (is_request items)) [
    | inr bad ↦ rw bad refl
    | inl valid ↦ rw valid (ap (λ t. (granted, t)) (release_refines items s))
  ]

  -- Whatever requests the internal stock routes serve one after another, and however Redis answers,
  -- their answers and the stock they leave are those of the inventory: the table's order, the order of
  -- the lines, the prices and the cache do not show.
  pub serve_all_refines :
      (ms : List Movement) (s : Session r) → seen (serve_all ms s) ≡ move_all ms (view s.0)
  unfolding serve_all move_all
  serve_all_refines [] s = refl
  serve_all_refines (m ∷ ms) s =
      let here = serve_refines m s in
      let rest = serve_all_refines ms (serve m s).1 in
      ap (λ p. ((serve m s).0 ∷ p.0, p.1)) rest
      ∙ ap (λ p. (p.0 ∷ (move_all ms p.1).0, (move_all ms p.1).1)) here
