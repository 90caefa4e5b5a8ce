-- ===== src/Payment/Service/Stored.antt =====
-- One row for each order, and one answer for each order.
use commerceops_ai_platform.Base.{
  ℕ, ◌+◌, ◌≤◌, ◌≡◌, refl, ap, ◌∙◌, inl, inr, false, none, some, Option-cases, String, List, [], ◌∷◌,
  ◌++◌, ◌==◌, if◌then◌else◌, arith,
}
use commerceops_ai_platform.Payment.Data.{GatewayOutcome, PaymentRequest}
use commerceops_ai_platform.Payment.Service.{Payment, find_payment, store, charge}

-- The rows of an order.
unfoldable pub count_rows : ℕ → List Payment → ℕ
count_rows order_id [] = 0
count_rows order_id (row ∷ rows) =
    (if row.order_id == order_id then 1 else 0) + count_rows order_id rows

pub find_payment-append :
    (n : ℕ) (rows : List Payment) (row : Payment)
    → find_payment n rows ≡ none
    → row.order_id ≡ n
    → find_payment n (rows ++ row ∷ []) ≡ some row
unfolding find_payment
find_payment-append n [] row h e = ground arith
find_payment-append n (x ∷ rows) row h e = ground (arith, find_payment-append n rows row)

pub find_payment-append_other :
    (n : ℕ) (rows : List Payment) (row : Payment)
    → (row.order_id == n) ≡ false
    → find_payment n (rows ++ row ∷ []) ≡ find_payment n rows
unfolding find_payment
find_payment-append_other n [] row h = ground (arith, h)
find_payment-append_other n (x ∷ rows) row h =
    ground (arith, find_payment-append_other n rows row h)

pub count_rows-append :
    (n : ℕ) (rows : List Payment) (row : Payment)
    → count_rows n (rows ++ row ∷ []) ≡ count_rows n rows + (if row.order_id == n then 1 else 0)
unfolding count_rows
count_rows-append n [] row = ground arith
count_rows-append n (x ∷ rows) row = ground (arith, count_rows-append n rows row)

pub count_rows_absent :
    (n : ℕ) (rows : List Payment) → find_payment n rows ≡ none → count_rows n rows ≡ 0
unfolding count_rows find_payment
count_rows_absent n [] h = refl
count_rows_absent n (x ∷ rows) h = ground (arith, count_rows_absent n rows)

module _ {S : Type 0} (gateway_charge : ℕ → ℕ → S → GatewayOutcome × S) where
  -- After a charge the order's row answers with its result.
  find_payment-charge :
      (uuid : String) (payload : PaymentRequest) (rows : List Payment) (s : S)
      → let (result, (rows', s')) = charge gateway_charge uuid payload (rows, s) in
        find_payment payload.order_id rows' ≡ some result
  unfolding charge
  find_payment-charge uuid payload rows s =
      elim (Option-cases (find_payment payload.order_id rows)) [
        | inl fresh ↦
            rw (fresh, charge)
              (find_payment-append payload.order_id rows
                (store gateway_charge payload uuid rows
                  (gateway_charge payload.order_id payload.amount s)).0
                fresh refl)
        | inr (row, found) ↦ rw (found, charge) found
      ]

  charge_found :
      (uuid : String) (payload : PaymentRequest) (db : List Payment × S) {row : Payment}
      → find_payment payload.order_id db.0 ≡ some row
      → charge gateway_charge uuid payload db ≡ (row, db)
  unfolding charge
  charge_found uuid payload db found = rw (found, charge)

  -- A second charge of an order, with whatever amount, returns the result of the first, asks the
  -- gateway nothing and changes nothing.
  pub charge_twice :
      (uuid uuid' : String) (payload again : PaymentRequest) (rows : List Payment) (s : S)
      → again.order_id ≡ payload.order_id
      → let (result, db) = charge gateway_charge uuid payload (rows, s) in
        charge gateway_charge uuid' again db ≡ (result, db)
  charge_twice uuid uuid' payload again rows s same =
      charge_found uuid' again (charge gateway_charge uuid payload (rows, s)).1 (
        ap (λ n. find_payment n (charge gateway_charge uuid payload (rows, s)).1.0) same
        ∙ find_payment-charge uuid payload rows s)

  -- An order that has at most one row still has at most one after a charge of any order.
  pub count_rows-charge :
      (uuid : String) (payload : PaymentRequest) (rows : List Payment) (s : S) (n : ℕ)
      → count_rows n rows ≤ 1
      → let (_, (rows', _)) = charge gateway_charge uuid payload (rows, s) in count_rows n rows' ≤ 1
  unfolding charge
  count_rows-charge uuid payload rows s n h =
      elim (Option-cases (find_payment payload.order_id rows)) [
        | inl fresh ↦
            (let row =
                (store gateway_charge payload uuid rows
                  (gateway_charge payload.order_id payload.amount s)).0 in
              rw (fresh, charge)
                (ground (
                  arith,
                  h,
                  count_rows-append n rows row,
                  count_rows_absent payload.order_id rows fresh,
                )))
        | inr (row, found) ↦ rw (found, charge) h
      ]
