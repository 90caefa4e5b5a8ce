-- ===== src/Customer/Tests.antt =====
-- Registrations, one of them with an email that is taken.
use commerceops_ai_platform.Base.{◌≡◌, refl, [], ◌∷◌, ok, err, ◌==◌, if◌then◌else◌, arith}
use commerceops_ai_platform.Customer.{
  Customer, CustomerCreate, Customers, conflict, create_customer, get_customer,
}
use commerceops_ai_platform.Customer.Unique.{
  count_email, IsUnique, create_customer-IsUnique, get_customer-create_customer,
}

abbrev ada : Customer
ada = record { name = "Ada"; email = "ada@example.com" }

abbrev db : Customers
db = record { rows = (1, ada) ∷ []; next_id = 2 }

abbrev again : CustomerCreate
again = record { name = "A. L."; email = "ada@example.com" }

abbrev grace : CustomerCreate
grace = record { name = "Grace"; email = "grace@example.com" }

taken_test : create_customer again db ≡ (err conflict, record db { next_id = 3 })
unfolding create_customer
taken_test = refl

registered : create_customer grace db ≡ (
  ok (2, record { name = "Grace"; email = "grace@example.com" }),
  record {
    rows = (1, ada) ∷ (2, record { name = "Grace"; email = "grace@example.com" }) ∷ [];
    next_id = 3;
  },
)
unfolding create_customer
registered = refl

db-IsUnique : IsUnique db
unfolding count_email
db-IsUnique = record { fresh = (omega arith, tt); unique = λ email. ground arith }

create_customer-IsUnique_example : IsUnique (create_customer again db).1
create_customer-IsUnique_example = create_customer-IsUnique again db db-IsUnique

get_customer-create_customer_example :
    (get_customer 2 (create_customer grace db).1
      ≡ ok (record { name = "Grace"; email = "grace@example.com" }))
    × (get_customer 1 (create_customer grace db).1 ≡ (
        if 1 == 2
        then ok (record { name = "Grace"; email = "grace@example.com" })
        else get_customer 1 db))
unfolding create_customer
get_customer-create_customer_example =
    get_customer-create_customer grace db _ 2 1 _ db-IsUnique registered
