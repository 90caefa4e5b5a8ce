-- ===== src/Customer.antt =====
-- app/customer/service.py and app/customer/models.py: registration with a unique email, and lookup.
-- The database gives ids in rising order, also for rows that it rolls back.
pub mod Unique
pub mod Routes
mod Tests
use commerceops_ai_platform.Base.{
  ℕ, suc, Bool, true, false, ◌||◌, Option, none, some, String, List, [], ◌∷◌, str_eq, if◌then◌else◌,
  Result, ok, err, Table, lookup, insert,
}

-- A row of `customers` without its key and its timestamp.
pub record Customer : Type 0 where
  pub name : String
  pub email : String

-- `CustomerCreate`, with the email as `EmailStr` has checked it.
pub record CustomerCreate : Type 0 where
  pub name : String
  pub email : String

pub record Customers : Type 0 where
  pub rows : Table Customer
  pub next_id : ℕ

-- The two `HTTPException`s.
pub data CustomerError : Type 0 where
  not_found conflict : CustomerError

-- The unique index on `email`.
unfoldable pub has_email : String → Table Customer → Bool
has_email email [] = false
has_email email ((id, c) ∷ t) = str_eq c.email email || has_email email t

unfoldable pub create_customer :
    CustomerCreate → Customers → Result CustomerError (ℕ × Customer) × Customers
unfolding has_email
create_customer payload db =
    let customer : Customer = record { name = payload.name; email = payload.email } in
    let id = db.next_id in
    if has_email payload.email db.rows
    then (err conflict, record db { next_id = suc id })
    else (ok (id, customer), record { rows = insert id customer db.rows; next_id = suc id })

unfoldable pub get_customer : ℕ → Customers → Result CustomerError Customer
get_customer customer_id db = elim (lookup customer_id db.rows) [
  | none ↦ err not_found
  | some customer ↦ ok customer
]
