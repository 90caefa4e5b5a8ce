-- ===== src/Product/Stock/Sorted.antt =====
-- The order in which the stock operations lock the rows.
use commerceops_ai_platform.Base.{
  ℕ, ◌+◌, ◌≤◌, ◌≡◌, refl, List, [], ◌∷◌, ◌==◌, if◌then◌else◌, All, All-map, arith, Bool-cases, leb,
  inl, inr,
}
use commerceops_ai_platform.Product.Stock.{Item, sorted, insert_sorted}

-- The quantity of product `k` among the items.
abbrev pub ordered : List Item → ℕ → ℕ
ordered [] k = 0
ordered ((j, q) ∷ is) k = (if k == j then q else 0) + ordered is k

-- Ids rise along the list.
abbrev pub IsSorted : List Item → Type 0
IsSorted [] = Unit
IsSorted (x ∷ xs) = All (λ y. x.0 ≤ y.0) xs × IsSorted xs

ordered-insert_sorted :
    (x : Item) (is : List Item) (k : ℕ) → ordered (insert_sorted x is) k ≡ ordered (x ∷ is) k
unfolding insert_sorted
ordered-insert_sorted x [] k = refl
ordered-insert_sorted x (y ∷ ys) k = ground (arith, ordered-insert_sorted x ys k)

pub ordered-sorted : (is : List Item) (k : ℕ) → ordered (sorted is) k ≡ ordered is k
unfolding sorted
ordered-sorted [] k = refl
ordered-sorted (x ∷ xs) k =
    omega (arith, ordered-insert_sorted x (sorted xs) k, ordered-sorted xs k)

All-insert_sorted :
    (P : Item → Type 0) (x : Item) (is : List Item) → P x → All P is → All P (insert_sorted x is)
unfolding insert_sorted
All-insert_sorted P x [] p h = (p, tt)
All-insert_sorted P x (y ∷ ys) p h = elim (Bool-cases (leb x.0 y.0)) [
  | inl low ↦ rw low (p, h)
  | inr high ↦ rw high (h.0, All-insert_sorted P x ys p h.1)
]

pub All-sorted : (P : Item → Type 0) (is : List Item) → All P is → All P (sorted is)
unfolding sorted
All-sorted P [] h = tt
All-sorted P (x ∷ xs) h = All-insert_sorted P x (sorted xs) h.0 (All-sorted P xs h.1)

insert_sorted-IsSorted : (x : Item) (is : List Item) → IsSorted is → IsSorted (insert_sorted x is)
unfolding insert_sorted
insert_sorted-IsSorted x [] h = (tt, tt)
insert_sorted-IsSorted x (y ∷ ys) h = elim (Bool-cases (leb x.0 y.0)) [
  | inl low ↦ rw low ((ground arith, All-map (λ z l. ground arith) ys h.0), h)
  | inr high ↦
      rw high (
        All-insert_sorted (λ z. y.0 ≤ z.0) x ys (ground arith) h.0,
        insert_sorted-IsSorted x ys h.1,
      )
]

-- Any request locks its rows in rising order of their ids, whatever the order of its lines, and
-- sorting changes no product's total quantity.
pub sorted_lem :
    (is : List Item) → IsSorted (sorted is) × ((k : ℕ) → ordered (sorted is) k ≡ ordered is k)
unfolding sorted
sorted_lem [] = (tt, λ k. refl)
sorted_lem (x ∷ xs) =
    (insert_sorted-IsSorted x (sorted xs) (sorted_lem xs).0, ordered-sorted (x ∷ xs))
