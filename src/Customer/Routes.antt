-- ===== src/Customer/Routes.antt =====
-- app/customer/router.py: the two routes, with the status codes of app/customer/service.py. A new customer
-- goes out with 201; the email is as `EmailStr` has checked it.
use commerceops_ai_platform.Base.{ℕ, Result, ok, err}
use commerceops_ai_platform.Customer.{
  Customer, CustomerCreate, Customers, CustomerError, not_found, conflict, create_customer,
  get_customer,
}

abbrev pub code_of : CustomerError → ℕ
code_of not_found = 404
code_of conflict = 409

abbrev pub sent : {A : Type 0} → Result CustomerError A → Result ℕ A
sent (ok a) = ok a
sent (err e) = err (code_of e)

unfoldable pub post_customer : CustomerCreate → Customers → Result ℕ (ℕ × Customer) × Customers
unfolding create_customer
post_customer payload db = let (r, db') = create_customer payload db in (sent r, db')

unfoldable pub customer_route : ℕ → Customers → Result ℕ Customer × Customers
unfolding get_customer
customer_route customer_id db = (sent (get_customer customer_id db), db)
