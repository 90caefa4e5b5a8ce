-- ===== src/Product/Stock/Reserve.antt =====
-- `reserve_stock`: when it succeeds, and what it does to the stock.
use commerceops_ai_platform.Base.{
  ℕ, ◌+◌, ◌≤◌, ◌<◌, ◌-◌, ◌≡◌, refl, ◌∙◌, ◌↔◌, inl, inr, Option, none, some, Option-cases, List, [],
  ◌∷◌, map, All, ◌==◌, if◌then◌else◌, Result, ok, err, Table, lookup, lookup-insert, arith, pure,
  ◌>>=◌, >>=-eq-ok, >>=_of_ok, All-map, subst, sym, ap, ap₂,
}
use commerceops_ai_platform.Cache.{Redis}
use commerceops_ai_platform.Product.Data.{Product, HttpError, CacheKey, Reserved, stock_of}
use commerceops_ai_platform.Product.Stock.{
  Item, Session, set_stock, finish, sorted, reserve_one, reserve_all, reserve_stock,
}
use commerceops_ai_platform.Product.Stock.Sorted.{ordered, ordered-sorted, All-sorted}

abbrev pub item_of : Reserved → Item
item_of a = (a.product_id, a.quantity)

abbrev pub price_of : Table Product → ℕ → Option ℕ
price_of t k = elim (lookup k t) [ none ↦ none | some p ↦ some p.price ]

module _ {C V : Type 0} (r : Redis C CacheKey V) where
  -- What one line that goes through does.
  record Takes (i : Item) (t t' : Table Product) (a : Reserved) : Type 0 where
    item : item_of a ≡ i
    price : price_of t i.0 ≡ some a.unit_price
    prices : (j : ℕ) → price_of t' j ≡ price_of t j
    stock : (j : ℕ) → stock_of t' j + (if j == i.0 then i.1 else 0) ≡ stock_of t j

  reserve_one-Takes :
      (i : Item) (s : Session r) (a : Reserved) (s' : Session r)
      → reserve_one r i s ≡ (ok a, s')
      → Takes i s.0 s'.0 a
  unfolding reserve_one
  reserve_one-Takes (k, q) (t, c) a (t', c') h = elim (Option-cases (lookup k t)) [
    | inl missing ↦ absurd (ground arith)
    | inr (p, found) ↦
        let after = lookup-insert {V = Product} in
        let p' : Product = record p { stock_quantity = p.stock_quantity - q } in
        record {
          item = ground arith;
          price = ground arith;
          prices = λ j. ground (arith, after j k p' t);
          stock = λ j. ground (arith, after j k p' t);
        }
  ]

  reserve_one_succeeds :
      (i : Item) (s : Session r)
      → 0 < i.1
      → i.1 ≤ stock_of s.0 i.0
      → (a : Reserved) × (s' : Session r) × (reserve_one r i s ≡ (ok a, s'))
  unfolding reserve_one
  reserve_one_succeeds (k, q) (t, c) pos enough = elim (Option-cases (lookup k t)) [
    | inl missing ↦ absurd (ground arith)
    | inr (p, found) ↦ (
      record { product_id = k; quantity = q; unit_price = p.price },
      set_stock r k p (p.stock_quantity - q) (t, c),
      ground arith,
    )
  ]

  record TakesAll (is : List Item) (t t' : Table Product) (taken : List Reserved) : Type 0 where
    items : map item_of taken ≡ is
    priced : All (λ a. price_of t a.product_id ≡ some a.unit_price) taken
    prices : (j : ℕ) → price_of t' j ≡ price_of t j
    stock : (j : ℕ) → stock_of t' j + ordered is j ≡ stock_of t j

  TakesAll-cons :
      (i : Item) (is : List Item) (t t' t'' : Table Product) (a : Reserved) (rest : List Reserved)
      → Takes i t t' a
      → TakesAll is t' t'' rest
      → TakesAll (i ∷ is) t t'' (a ∷ rest)
  TakesAll-cons i is t t' t'' a rest one all = record {
    items = ap₂ (λ x xs. x ∷ xs) one.item all.items;
    priced = (
      subst (λ x. price_of t x.0 ≡ some a.unit_price) (sym one.item) one.price,
      All-map (λ b h. sym (one.prices b.product_id) ∙ h) rest all.priced,
    );
    prices = λ j. all.prices j ∙ one.prices j;
    stock = λ j. omega (arith, all.stock j, one.stock j);
  }

  reserve_all-TakesAll :
      (is : List Item) (s : Session r) (taken : List Reserved) (s' : Session r)
      → reserve_all r is s ≡ (ok taken, s')
      → TakesAll is s.0 s'.0 taken
  unfolding reserve_all
  reserve_all-TakesAll [] s taken s' h =
      let no_more : [] ≡ taken = cc in
      let same : s.0 ≡ s'.0 = cc in
      subst (λ x. TakesAll [] s.0 s'.0 x) no_more
        (record {
          items = refl;
          priced = tt;
          prices = λ j. ap (λ t. price_of t j) (sym same);
          stock = λ j. omega (arith, ap (λ t. stock_of t j) same);
        })
  reserve_all-TakesAll (i ∷ is) s taken s' h =
      let (a, m, first, more) =
        >>=-eq-ok (reserve_one r i) (λ one. reserve_all r is >>= λ rest. pure (one ∷ rest)) s taken
          s' h in
      let (rest, n, all, last) =
        >>=-eq-ok (reserve_all r is) (λ rest. pure (a ∷ rest)) m taken s' more in
      let same : n ≡ s' = cc in
      let cons : a ∷ rest ≡ taken = cc in
      let tail = reserve_all-TakesAll is m rest n all in
      subst (λ x. TakesAll (i ∷ is) s.0 s'.0 x) cons
        (subst (λ x. TakesAll (i ∷ is) s.0 x.0 (a ∷ rest)) same
          (TakesAll-cons i is s.0 m.0 n.0 a rest (reserve_one-Takes i s a m first) tail))

  -- Lines of positive quantities, for which there is stock in all, go through.
  reserve_all_succeeds :
      (is : List Item) (s : Session r)
      → All (λ i. 0 < i.1) is
      → ((k : ℕ) → ordered is k ≤ stock_of s.0 k)
      → (taken : List Reserved) × (s' : Session r) × (reserve_all r is s ≡ (ok taken, s'))
  unfolding reserve_all
  reserve_all_succeeds [] s pos enough = ([], s, refl)
  reserve_all_succeeds (i ∷ is) s pos enough =
      let here = enough i.0 in
      let (a, m, first) = reserve_one_succeeds i s pos.0 (ground arith) in
      let takes = reserve_one-Takes i s a m first in
      let (rest, s', more) =
        reserve_all_succeeds is m pos.1 (λ k. omega (arith, enough k, takes.stock k)) in
      (
        a ∷ rest,
        s',
        >>=_of_ok (reserve_one r i) (λ one. reserve_all r is >>= λ rest. pure (one ∷ rest)) s a m
              first
            ∙ >>=_of_ok (reserve_all r is) (λ rest. pure (a ∷ rest)) m rest s' more,
      )

  -- A reservation that went through.
  pub record Reservation (items : List Item) (t t' : Table Product) (taken : List Reserved)
      : Type 0 where
    pub lines : map item_of taken ≡ sorted items
    pub priced : All (λ a. price_of t a.product_id ≡ some a.unit_price) taken
    pub prices : (k : ℕ) → price_of t' k ≡ price_of t k
    pub stock : (k : ℕ) → stock_of t' k + ordered items k ≡ stock_of t k

  -- A request that succeeds returns the ordered lines, sorted by product and priced from the
  -- table, changes no price, and lowers the stock of every product by exactly the quantity ordered
  -- of it, also where several lines name one product.
  pub reserve_stock-Reservation :
      (items : List Item) (s : Session r) (taken : List Reserved) (s' : Session r)
      → reserve_stock r items s ≡ (ok taken, s')
      → Reservation items s.0 s'.0 taken
  unfolding reserve_stock
  reserve_stock-Reservation items s taken s' h =
      go (reserve_all r (sorted items) s).0 (reserve_all r (sorted items) s).1 refl
    where
      go :
          (o : Result HttpError (List Reserved)) (m : Session r)
          → reserve_all r (sorted items) s ≡ (o, m)
          → Reservation items s.0 s'.0 taken
      go (err e) m x = absurd (ground (arith, ap (finish r s.0) (sym x) ∙ h))
      go (ok all) m x =
          let end : ◌≡◌ {A = Result HttpError (List Reserved) × Session r} (ok all, m)
              (ok taken, s') =
            ap (finish r s.0) (sym x) ∙ h in
          let t = reserve_all-TakesAll (sorted items) s taken s' (x ∙ end) in
          record {
            lines = t.items;
            priced = t.priced;
            prices = t.prices;
            stock = λ k. omega (arith, t.stock k, ordered-sorted items k);
          }

  -- A request that fails, on whichever line, leaves the table as it was.
  pub reserve_stock_atomic :
      (items : List Item) (s : Session r) (e : HttpError) (s' : Session r)
      → reserve_stock r items s ≡ (err e, s')
      → s'.0 ≡ s.0
  unfolding reserve_stock
  reserve_stock_atomic items s e s' h =
      go (reserve_all r (sorted items) s).0 (reserve_all r (sorted items) s).1 refl
    where
      go :
          (o : Result HttpError (List Reserved)) (m : Session r)
          → reserve_all r (sorted items) s ≡ (o, m)
          → s'.0 ≡ s.0
      go (err x) m y = ground (arith, ap (finish r s.0) (sym y) ∙ h)
      go (ok all) m y = absurd (ground (arith, ap (finish r s.0) (sym y) ∙ h))

  -- A request of positive quantities succeeds exactly when no product is ordered beyond its stock.
  pub reserve_stock_iff :
      (items : List Item) (s : Session r)
      → All (λ i. 0 < i.1) items
      → ((taken : List Reserved) × (s' : Session r) × (reserve_stock r items s ≡ (ok taken, s')))
        ↔ ((k : ℕ) → ordered items k ≤ stock_of s.0 k)
  reserve_stock_iff items s pos = (
    λ (taken, s', h) k. omega (arith, (reserve_stock-Reservation items s taken s' h).stock k),
    enough,
  )
    where
      enough :
          ((k : ℕ) → ordered items k ≤ stock_of s.0 k)
          → (taken : List Reserved) × (s' : Session r) × (reserve_stock r items s ≡ (ok taken, s'))
      enough h =
          let sorted_pos = All-sorted (λ i. 0 < i.1) items pos in
          let (taken, s', e) =
            reserve_all_succeeds (sorted items) s sorted_pos
              (λ k. omega (arith, h k, ordered-sorted items k)) in
          (taken, s', unfold reserve_stock in ap (finish r s.0) e)
