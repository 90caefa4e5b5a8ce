-- ===== src/Drills/Chaos/Summary.antt =====
-- The summary of `_place_orders` of loadtest/chaos_experiment.py accounts for every order.
use commerceops_ai_platform.Base.{
  ℕ, zero, suc, ◌+◌, ◌≤◌, ◌≡◌, refl, true, false, none, some, Option, List, [], ◌∷◌, length,
  length-append, leb, All, All-map, if◌then◌else◌, inl, inr, Bool-cases, arith,
}
use commerceops_ai_platform.Drills.{Tools}
use commerceops_ai_platform.Drills.Chaos.{
  Outcome, tally, insert_sorted, sort, last, Placed, Stack, one, place_each, place_orders,
}

-- The orders that the counts account for.
unfoldable pub total : List (Outcome × ℕ) → ℕ
total [] = 0
total ((k, n) ∷ rest) = n + total rest

total-tally :
    (o : Outcome) (counts : List (Outcome × ℕ)) → total (tally o counts) ≡ suc (total counts)
unfolding total tally
total-tally o [] = refl
total-tally o ((k, n) ∷ rest) = ground (arith, total-tally o rest)

-- The latency is no longer than the one that is reported; none is reported where there is none.
abbrev pub Below : Option ℕ → ℕ → Type 0
Below none x = ⊥
Below (some m) x = x ≤ m

-- Sorted from the least on.
abbrev IsSorted : List ℕ → Type 0
IsSorted [] = Unit {0}
IsSorted (x ∷ xs) = All (λ y. x ≤ y) xs × IsSorted xs

All-insert_sorted :
    (P : ℕ → Type 0) (x : ℕ) (ys : List ℕ) → P x → All P ys → All P (insert_sorted x ys)
All-insert_sorted P x [] p h = (p, tt)
All-insert_sorted P x (y ∷ ys) p h = elim (Bool-cases (leb x y)) [
  | inl small ↦ rw small (p, h)
  | inr large ↦ rw large (h.0, All-insert_sorted P x ys p h.1)
]

insert_sorted-IsSorted : (x : ℕ) (ys : List ℕ) → IsSorted ys → IsSorted (insert_sorted x ys)
insert_sorted-IsSorted x [] h = (tt, tt)
insert_sorted-IsSorted x (y ∷ ys) h = elim (Bool-cases (leb x y)) [
  | inl small ↦
      (let below : x ≤ y = ground (arith, small) in
        rw small ((below, All-map (λ (z : ℕ) (k : y ≤ z). omega (arith, below, k)) ys h.0), h))
  | inr large ↦ rw large (
    All-insert_sorted (λ z. y ≤ z) x ys (ground (arith, large)) h.0,
    insert_sorted-IsSorted x ys h.1,
  )
]

sort-IsSorted : (xs : List ℕ) → IsSorted (sort xs)
unfolding sort
sort-IsSorted [] = tt
sort-IsSorted (x ∷ xs) = insert_sorted-IsSorted x (sort xs) (sort-IsSorted xs)

last-Below : (xs : List ℕ) → IsSorted xs → All (Below (last xs)) xs
last-Below [] h = tt
last-Below (x ∷ []) h = (omega arith, tt)
last-Below (x ∷ y ∷ ys) h =
    (go (last (y ∷ ys)) (last-Below (y ∷ ys) h.1).0 h.0.0, last-Below (y ∷ ys) h.1)
  where
    go : (m : Option ℕ) → Below m y → x ≤ y → Below m x
    go none b k = b
    go (some m) b k = omega (arith, b, k)

All-inserted : (P : ℕ → Type 0) (x : ℕ) (ys : List ℕ) → All P (insert_sorted x ys) → P x × All P ys
All-inserted P x [] h = h
All-inserted P x (y ∷ ys) h =
    elim (leb x y)
        as (λ b. All P (if b then x ∷ y ∷ ys else y ∷ insert_sorted x ys) → P x × All P (y ∷ ys)) [
          | true ↦ λ h. h
          | false ↦ λ h. let rest = All-inserted P x ys h.1 in (rest.0, (h.0, rest.1))
        ]
      h

All-sort : (P : ℕ → Type 0) (xs : List ℕ) → All P (sort xs) → All P xs
unfolding sort
All-sort P [] h = tt
All-sort P (x ∷ xs) h = let both = All-inserted P x (sort xs) h in (both.0, All-sort P xs both.1)

module _ {S : Type 0} (tools : Tools S) (stack : Stack S) (customer_id product_id : ℕ) where
  place_each-total :
      (n : ℕ) (placed : Placed) (s : S)
      → let (placed', s') = place_each tools stack customer_id product_id n placed s in
        (total placed'.statuses ≡ n + total placed.statuses)
        × (length placed'.latencies ≡ n + length placed.latencies)
  unfolding place_each one
  place_each-total zero placed s = (omega arith, omega arith)
  place_each-total (suc n) placed s =
      let next = one tools stack customer_id product_id placed s in
      let rest = place_each-total n next.0 next.1 in
      let outcome = (stack.post_order customer_id product_id (tools.monotonic s).1).0 in
      (
        omega (arith, rest.0, total-tally outcome placed.statuses),
        omega (arith, rest.1, length-append placed.latencies (_ ∷ [])),
      )

  -- The summary of a number of orders counts each of them under one outcome, however the requests
  -- end, and no latency is longer than the one that it reports as the longest.
  pub place_orders_lem :
      (count : ℕ) (s : S)
      → let (placed, s') =
          place_each tools stack customer_id product_id count
            (record { statuses = []; latencies = [] })
            s in
        let report = (place_orders tools stack customer_id product_id count s).0 in
        (total report.statuses ≡ count)
        × (length placed.latencies ≡ count)
        × All (Below report.max_ms) placed.latencies
  unfolding place_orders total
  place_orders_lem count s =
      let start : Placed = record { statuses = []; latencies = [] } in
      let counted = place_each-total count start s in
      let placed = (place_each tools stack customer_id product_id count start s).0 in
      (
        omega (arith, counted.0),
        omega (arith, counted.1),
        All-sort (Below (last (sort placed.latencies))) placed.latencies
            (last-Below (sort placed.latencies) (sort-IsSorted placed.latencies)),
      )
