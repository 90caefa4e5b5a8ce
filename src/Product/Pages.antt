-- ===== src/Product/Pages.antt =====
-- app/product/router.py: the public routes of the catalogue, with the requests of
-- app/product/schemas.py and what `update_product` of app/product/service.py does with one.
mod Tests
use commerceops_ai_platform.Base.{
  ℕ, ◌≡◌, refl, subst, ◌∙◌, inl, inr, Bool, true, false, ◌&&◌, Bool-cases, Option, none, some,
  Option-cases, String, ltb, ◌==◌, if◌then◌else◌, Result, ok, err, Table, lookup, insert,
  lookup-insert, lookup-insert_self, arith,
}
use commerceops_ai_platform.Cache.{Redis}
use commerceops_ai_platform.Product.Data.{
  Product, HttpError, not_found, conflict, CacheKey, product,
}
use commerceops_ai_platform.Product.Routes.{code_of}
use commerceops_ai_platform.Product.Creation.{ProductCreate, is_valid, create_product}
use commerceops_ai_platform.Product.Catalog.{View, update_product}
use commerceops_ai_platform.Product.Stock.{Session}

-- A field of a JSON body: left out, `null`, or a value.
pub data Field (A : Type 0) : Type 0 where
  unset null : Field A
  value : A → Field A

pub record ProductUpdate : Type 0 where
  pub name : Field String
  pub description : Field String
  pub price : Field ℕ
  pub stock_quantity : Field ℕ

-- `Field(default=None, gt=0)` of the price, which lets `null` pass; a stock below 0 is no `ℕ`.
abbrev pub is_update : Field ℕ → Bool
is_update unset = true
is_update null = true
is_update (value price) = ltb 0 price

-- `setattr` for each field that the body has: what becomes of a column that may be NULL, and of one
-- that may not, where `none` is the `IntegrityError` of the commit.
abbrev pub nullable : {A : Type 0} → Field A → Option A → Option A
nullable unset old = old
nullable null old = none
nullable (value a) old = some a

abbrev pub required : {A : Type 0} → Field A → A → Option A
required unset old = some old
required null old = none
required (value a) old = some a

abbrev pub with_stock : Option ℕ → String → Option String → ℕ → Option Product
with_stock none name description price = none
with_stock (some stock_quantity) name description price = some (record {
  name = name;
  description = description;
  price = price;
  stock_quantity = stock_quantity;
})

abbrev pub with_price : Option ℕ → ProductUpdate → Product → String → Option Product
with_price none payload p name = none
with_price (some price) payload p name =
    with_stock (required payload.stock_quantity p.stock_quantity) name
      (nullable payload.description p.description) price

abbrev pub with_name : Option String → ProductUpdate → Product → Option Product
with_name none payload p = none
with_name (some name) payload p = with_price (required payload.price p.price) payload p name

unfoldable pub changed : ProductUpdate → Product → Option Product
changed payload p = with_name (required payload.name p.name) payload p

-- FastAPI's answer: a body, or the status of an error.
abbrev pub updated : {W : Type 0} → Result HttpError Product × W → Result ℕ Product × W
updated (ok p, w) = (ok p, w)
updated (err e, w) = (err (code_of e), w)

module _ {C : Type 0} (r : Redis C CacheKey View) where
  -- `POST /products`, which answers with 201.
  unfoldable pub post_product : ProductCreate → ℕ → Session r → Result ℕ (ℕ × Product) × Session r
  post_product payload id s =
      let (created, s') = create_product r payload id s in
      if is_valid payload then (ok created, s') else (err 422, s)

  -- A product that is there, with the row that the body asks for, if the columns allow it.
  abbrev pub put_row : ℕ → Option Product → Session r → Result ℕ Product × Session r
  put_row product_id none s = (err 500, s)
  put_row product_id (some p) s = updated (update_product r product_id (λ old. p) s)

  abbrev pub put_found :
      ℕ → ProductUpdate → Option Product → Session r → Result ℕ Product × Session r
  put_found product_id payload none s = (err 404, s)
  put_found product_id payload (some p) s = put_row product_id (changed payload p) s

  -- `PUT /products/{product_id}`
  unfoldable pub put_product : ℕ → ProductUpdate → Session r → Result ℕ Product × Session r
  unfolding changed
  put_product product_id payload s =
      if is_update payload.price
      then put_found product_id payload (lookup product_id s.0) s
      else (err 422, s)

-- What a row has of a body: the value that it gave, and the old one where it gave none.
abbrev pub Has : {A : Type 0} → Field A → A → A → Type 0
Has unset old new = new ≡ old
Has null old new = ⊥
Has (value a) old new = new ≡ a

-- The same of a column that may be NULL.
abbrev pub HasNullable : {A : Type 0} → Field A → Option A → Option A → Type 0
HasNullable unset old new = new ≡ old
HasNullable null old new = new ≡ none
HasNullable (value a) old new = new ≡ some a

nullable-HasNullable :
    {A : Type 0} (f : Field A) (old : Option A) → HasNullable f old (nullable f old)
nullable-HasNullable unset old = refl
nullable-HasNullable null old = refl
nullable-HasNullable (value a) old = refl

required-Has : {A : Type 0} (f : Field A) (old new : A) → required f old ≡ some new → Has f old new
required-Has unset old new e = ground (arith, e)
required-Has null old new e = absurd (ground (arith, e))
required-Has (value a) old new e = ground (arith, e)

record Changed (payload : ProductUpdate) (old p : Product) : Type 0 where
  name : Has payload.name old.name p.name
  description : HasNullable payload.description old.description p.description
  price : Has payload.price old.price p.price
  stock_quantity : Has payload.stock_quantity old.stock_quantity p.stock_quantity

changed-Changed :
    (payload : ProductUpdate) (old p : Product)
    → changed payload old ≡ some p
    → Changed payload old p
unfolding changed
changed-Changed payload old p e = named (required payload.name old.name) refl e
  where
    stocked :
        (name : String) (price : ℕ) (stock : Option ℕ)
        → required payload.name old.name ≡ some name
        → required payload.price old.price ≡ some price
        → required payload.stock_quantity old.stock_quantity ≡ stock
        → with_stock stock name (nullable payload.description old.description) price ≡ some p
        → Changed payload old p
    stocked name price none n q k h = absurd (ground (arith, h))
    stocked name price (some stock) n q k h = record {
      name = required-Has payload.name old.name p.name (n ∙ ground (arith, h));
      description =
          subst (HasNullable payload.description old.description) (ground (arith, h))
            (nullable-HasNullable payload.description old.description);
      price = required-Has payload.price old.price p.price (q ∙ ground (arith, h));
      stock_quantity =
          required-Has payload.stock_quantity old.stock_quantity p.stock_quantity
            (k ∙ ground (arith, h));
    }

    priced :
        (name : String) (price : Option ℕ)
        → required payload.name old.name ≡ some name
        → required payload.price old.price ≡ price
        → with_price price payload old name ≡ some p
        → Changed payload old p
    priced name none n q h = absurd (ground (arith, h))
    priced name (some price) n q h =
        stocked name price (required payload.stock_quantity old.stock_quantity) n q refl h

    named :
        (name : Option String)
        → required payload.name old.name ≡ name
        → with_name name payload old ≡ some p
        → Changed payload old p
    named none n h = absurd (ground (arith, h))
    named (some name) n h = priced name (required payload.price old.price) n refl h

module _ {C : Type 0} (r : Redis C CacheKey View) where
  -- The old row and the new one, and what the new one has of the body.
  pub record IsUpdated (product_id : ℕ) (payload : ProductUpdate) (s : Session r) (p : Product)
      (s' : Session r) : Type 0 where
    pub old : Product
    pub found : lookup product_id s.0 ≡ some old
    pub stored : lookup product_id s'.0 ≡ some p
    pub name : Has payload.name old.name p.name
    pub description : HasNullable payload.description old.description p.description
    pub price : Has payload.price old.price p.price
    pub stock_quantity : Has payload.stock_quantity old.stock_quantity p.stock_quantity
    pub others : (other : ℕ) → (other == product_id) ≡ false → lookup other s'.0 ≡ lookup other s.0

  -- What an answer says of the table: a body was stored, an error stored nothing.
  abbrev pub Put : ℕ → ProductUpdate → Session r → Result ℕ Product × Session r → Type 0
  Put product_id payload s (ok p, s') = IsUpdated product_id payload s p s'
  Put product_id payload s (err code, s') = s' ≡ s

  put_row-Put :
      (product_id : ℕ) (payload : ProductUpdate) (s : Session r) (old : Product)
      → lookup product_id s.0 ≡ some old
      → (row : Option Product) → changed payload old ≡ row
      → Put product_id payload s (put_row r product_id row s)
  unfolding update_product
  put_row-Put product_id payload s old found none e = refl
  put_row-Put product_id payload (t, c) old found (some p) e =
      rw (found, update_product)
        (let v = changed-Changed payload old p e in
          record {
            old = old;
            found = found;
            stored = lookup-insert_self product_id p t;
            name = v.name;
            description = v.description;
            price = v.price;
            stock_quantity = v.stock_quantity;
            others = λ other apart. rw (lookup-insert other product_id p t) (rw apart refl);
          })

  -- `PUT /products/{id}` either answers with a product, which is then the row under the id, and whose
  -- name, description, price and stock are the body's, or the old row's where the body left them
  -- out, while every other row stays; or it answers with an error and changes nothing. A `null`
  -- empties the description; for one of the other three it is such an error.
  pub put_product-Put :
      (product_id : ℕ) (payload : ProductUpdate) (s : Session r)
      → Put product_id payload s (put_product r product_id payload s)
  unfolding put_product
  put_product-Put product_id payload s = elim (Bool-cases (is_update payload.price)) [
    | inr invalid ↦ rw invalid refl
    | inl valid ↦ elim (Option-cases (lookup product_id s.0)) [
      | inl missing ↦ rw (valid, missing) refl
      | inr (old, found) ↦
          rw (valid, found) (put_row-Put product_id payload s old found (changed payload old) refl)
    ]
  ]
