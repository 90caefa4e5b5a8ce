-- ===== src/Customer/Unique.antt =====
-- One row for each email, and rows that stay as they were registered.
use commerceops_ai_platform.Base.{
  ℕ, suc, ◌+◌, ◌≤◌, ◌<◌, ◌≡◌, refl, inl, inr, false, Bool-cases, String, [], ◌∷◌, str_eq, eq_iff,
  ◌==◌, if◌then◌else◌, All, ok, Table, insert, lookup-insert, lookup-insert_self, arith,
}
use commerceops_ai_platform.Customer.{
  Customer, CustomerCreate, Customers, has_email, create_customer, get_customer,
}

-- How many rows have an email.
unfoldable pub count_email : String → Table Customer → ℕ
count_email email [] = 0
count_email email ((id, c) ∷ t) = (if str_eq c.email email then 1 else 0) + count_email email t

-- Ids are below the next one, and no email has two rows.
pub record IsUnique (db : Customers) : Type 0 where
  pub fresh : All (λ row. row.0 < db.next_id) db.rows
  pub unique : (email : String) → count_email email db.rows ≤ 1

count_email_absent :
    (email : String) (t : Table Customer) → has_email email t ≡ false → count_email email t ≡ 0
unfolding has_email count_email
count_email_absent email [] h = refl
count_email_absent email ((id, c) ∷ t) h = ground (arith, count_email_absent email t)

count_email-insert_fresh :
    (email : String) (n : ℕ) (c : Customer) (t : Table Customer)
    → All (λ row. row.0 < n) t
    → count_email email (insert n c t)
      ≡ count_email email t + (if str_eq c.email email then 1 else 0)
unfolding count_email
count_email-insert_fresh email n c [] h = ground arith
count_email-insert_fresh email n c ((j, d) ∷ t) h =
    ground (arith, count_email-insert_fresh email n c t h.1)

fresh-suc : (n : ℕ) (t : Table Customer) → All (λ row. row.0 < n) t → All (λ row. row.0 < suc n) t
fresh-suc n [] h = tt
fresh-suc n ((j, c) ∷ t) h = (omega arith, fresh-suc n t h.1)

fresh-insert :
    (n : ℕ) (c : Customer) (t : Table Customer)
    → All (λ row. row.0 < n) t
    → All (λ row. row.0 < suc n) (insert n c t)
fresh-insert n c [] h = (omega arith, tt)
fresh-insert n c ((j, d) ∷ t) h = ground (arith, fresh-insert n c t h.1, fresh-suc n t h.1)

-- No request registers an email twice: one row for each email at most, before and after.
pub create_customer-IsUnique :
    (payload : CustomerCreate) (db : Customers)
    → IsUnique db
    → IsUnique (create_customer payload db).1
unfolding create_customer
create_customer-IsUnique payload db v = elim (Bool-cases (has_email payload.email db.rows)) [
  | inl taken ↦
      rw taken (record { fresh = fresh-suc db.next_id db.rows v.fresh; unique = v.unique })
  | inr free ↦ rw free (record {
    fresh = fresh-insert db.next_id _ db.rows v.fresh;
    unique = λ email.
        let added =
          count_email-insert_fresh email db.next_id
            (record { name = payload.name; email = payload.email }) db.rows v.fresh in
        let none_yet = count_email_absent payload.email db.rows free in
        ground (arith, v.unique email, added, none_yet, eq_iff payload.email email);
  })
]

-- A registered customer is found under the id of the answer, with the name and the email of the
-- request, and every customer that was there before is found as before.
pub get_customer-create_customer :
    (payload : CustomerCreate) (db db' : Customers) (id j : ℕ) (c : Customer)
    → IsUnique db
    → create_customer payload db ≡ (ok (id, c), db')
    → (get_customer id db' ≡ ok (record { name = payload.name; email = payload.email }))
      × (get_customer j db' ≡ (if j == id then ok c else get_customer j db))
unfolding create_customer get_customer
get_customer-create_customer payload db db' id j c v e =
    elim (Bool-cases (has_email payload.email db.rows)) [
      | inl taken ↦ absurd (ground (arith, taken))
      | inr free ↦
          let customer : Customer = record { name = payload.name; email = payload.email } in
          ground (
            arith,
            free,
            lookup-insert_self db.next_id customer db.rows,
            lookup-insert j db.next_id customer db.rows,
          )
    ]
