-- ===== src/Payment/Service/Race/Fair.antt =====
-- However threads interleave in `charge` of app/payment/service.py, they end, an order has one row,
-- and all its answers are that row.
use commerceops_ai_platform.Base.{
  ℕ, ◌+◌, ◌-◌, ◌≤◌, ◌≡◌, refl, sym, ap, subst, true, inl, inr, none, some, Option-cases, String,
  List, [], ◌∷◌, ◌++◌, ◌==◌, if◌then◌else◌, Bool-cases, arith,
}
use commerceops_ai_platform.Payment.Data.{GatewayOutcome, PaymentRequest}
use commerceops_ai_platform.Payment.Service.{Payment, find_payment, store, charge}
use commerceops_ai_platform.Payment.Service.Stored.{
  count_rows, count_rows-append, count_rows_absent, find_payment-append,
}
use commerceops_ai_platform.Payment.Service.Race.{
  Phase, selecting, charging, storing, answered, raised, advance, Threads, set, begun, step, run,
}

-- How many steps are left in `charge`, at most.
unfoldable pub remaining : Phase → ℕ
remaining selecting = 3
remaining charging = 2
remaining (storing row) = 1
remaining (answered result) = 0
remaining raised = 0

unfoldable pub turns : ℕ → List ℕ → ℕ
turns i [] = 0
turns i (j ∷ schedule) = (if i == j then 1 else 0) + turns i schedule

-- What the rows say of a thread that serves an order.
abbrev pub Known : ℕ → List Payment → Phase → Type 0
Known n rows selecting = Unit {0}
Known n rows charging = Unit {0}
Known n rows (storing row) = row.order_id ≡ n
Known n rows (answered result) = find_payment n rows ≡ some result
Known n rows raised = (row : Payment) × (find_payment n rows ≡ some row)

find_payment-append_found :
    (n : ℕ) (rows : List Payment) (row found : Payment)
    → find_payment n rows ≡ some found
    → find_payment n (rows ++ row ∷ []) ≡ some found
unfolding find_payment
find_payment-append_found n [] row found h = ground arith
find_payment-append_found n (x ∷ rows) row found h =
    ground (arith, find_payment-append_found n rows row found)

Known-append :
    (n : ℕ) (rows : List Payment) (row : Payment) (p : Phase)
    → Known n rows p
    → Known n (rows ++ row ∷ []) p
Known-append n rows row selecting h = h
Known-append n rows row charging h = h
Known-append n rows row (storing r) h = h
Known-append n rows row (answered r) h = find_payment-append_found n rows row r h
Known-append n rows row raised (r, h) = (r, find_payment-append_found n rows row r h)

module _ {S : Type 0} (gateway_charge : ℕ → ℕ → S → GatewayOutcome × S) (uuid : ℕ → String)
    (requests : ℕ → PaymentRequest) where
  pub record IsFair (t : Threads S) : Type 0 where
    pub once : (n : ℕ) → count_rows n t.db.0 ≤ 1
    pub known : (i : ℕ) → Known (requests i).order_id t.db.0 (t.phase i)

  -- What one step of a thread keeps, for all the threads.
  record Kept (n : ℕ) (rows : List Payment) (out : Phase × (List Payment × S)) : Type 0 where
    once : ((m : ℕ) → count_rows m rows ≤ 1) → (m : ℕ) → count_rows m out.1.0 ≤ 1
    known : Known n out.1.0 out.0
    others : (m : ℕ) (p : Phase) → Known m rows p → Known m out.1.0 p

  advance-Kept :
      (u : String) (r : PaymentRequest) (p : Phase) (db : List Payment × S)
      → Known r.order_id db.0 p
      → Kept r.order_id db.0 (advance gateway_charge u r p db)
  unfolding advance
  advance-Kept u r selecting (rows, s) h = elim (Option-cases (find_payment r.order_id rows)) [
    | inl fresh ↦ rw fresh (record { once = λ c. c; known = tt; others = λ m p k. k })
    | inr (row, found) ↦ rw (found) (record { once = λ c. c; known = found; others = λ m p k. k })
  ]
  advance-Kept u r charging (rows, s) h = record {
    once = λ c. c;
    known = refl;
    others = λ m p k. k;
  }
  advance-Kept u r (storing row) (rows, s) h =
      elim (Option-cases (find_payment row.order_id rows)) [
        | inl fresh ↦ rw fresh (record {
          once = λ c m. ground (arith, c m, count_rows-append m rows row, count_rows_absent m rows);
          known =
              find_payment-append r.order_id rows row
                (subst (λ n. find_payment n rows ≡ none) h fresh) h;
          others = λ m p k. Known-append m rows row p k;
        })
        | inr (other, found) ↦ rw found (record {
          once = λ c. c;
          known = (other, subst (λ n. find_payment n rows ≡ some other) h found);
          others = λ m p k. k;
        })
      ]
  advance-Kept u r (answered result) db h = record { once = λ c. c; known = h; others = λ m p k. k }
  advance-Kept u r raised db h = record { once = λ c. c; known = h; others = λ m p k. k }

  pub step-IsFair :
      (i : ℕ) (t : Threads S) → IsFair t → IsFair (step gateway_charge uuid requests i t)
  unfolding step set
  step-IsFair i t v = record {
    once = kept.once v.once;
    known = λ j. elim (Bool-cases (j == i)) [
      | inl same ↦
          rw same
            (subst (λ k. Known (requests k).order_id db' p') (sym (by_test j i same)) kept.known)
      | inr other ↦ rw other (kept.others (requests j).order_id (t.phase j) (v.known j))
    ];
  }
    where
      out : Phase × (List Payment × S)
      out = advance gateway_charge (uuid i) (requests i) (t.phase i) t.db

      p' : Phase
      p' = out.0

      db' : List Payment
      db' = out.1.0

      kept : Kept (requests i).order_id t.db.0 out
      kept = advance-Kept (uuid i) (requests i) (t.phase i) t.db (v.known i)

      by_test : (j k : ℕ) → (j == k) ≡ true → j ≡ k
      by_test j k e = ground (arith, e)

  run-IsFair :
      (schedule : List ℕ) (t : Threads S)
      → IsFair t
      → IsFair (run gateway_charge uuid requests schedule t)
  unfolding run
  run-IsFair [] t v = v
  run-IsFair (i ∷ schedule) t v =
      run-IsFair schedule (step gateway_charge uuid requests i t) (step-IsFair i t v)

  remaining-advance :
      (u : String) (r : PaymentRequest) (p : Phase) (db : List Payment × S)
      → remaining (advance gateway_charge u r p db).0 ≤ remaining p - 1
  unfolding advance remaining
  remaining-advance u r selecting (rows, s) = ground arith
  remaining-advance u r charging (rows, s) = ground arith
  remaining-advance u r (storing row) (rows, s) = ground arith
  remaining-advance u r (answered result) db = ground arith
  remaining-advance u r raised db = ground arith

  remaining-step :
      (i j : ℕ) (t : Threads S)
      → remaining ((step gateway_charge uuid requests j t).phase i)
        ≤ remaining (t.phase i) - (if i == j then 1 else 0)
  unfolding step set
  remaining-step i j t =
      ground (arith, remaining-advance (uuid j) (requests j) (t.phase j) t.db, ap t.phase)

  remaining-run :
      (i : ℕ) (schedule : List ℕ) (t : Threads S)
      → remaining ((run gateway_charge uuid requests schedule t).phase i)
        ≤ remaining (t.phase i) - turns i schedule
  unfolding run turns
  remaining-run i [] t = ground arith
  remaining-run i (j ∷ schedule) t = ground (
    arith,
    remaining-run i schedule (step gateway_charge uuid requests j t),
    remaining-step i j t,
  )

-- How `charge` ends for the thread that serves an order, and the rows then.
abbrev pub Settled : ℕ → List Payment → Phase → Type 0
Settled n rows (answered result) = find_payment n rows ≡ some result
Settled n rows raised = (row : Payment) × (find_payment n rows ≡ some row)
Settled n rows selecting = ⊥
Settled n rows charging = ⊥
Settled n rows (storing row) = ⊥

Settled-Known :
    (n : ℕ) (rows : List Payment) (p : Phase) → remaining p ≡ 0 → Known n rows p → Settled n rows p
unfolding remaining
Settled-Known n rows (answered result) e k = k
Settled-Known n rows raised e k = k
Settled-Known n rows selecting e k = omega (arith, e)
Settled-Known n rows charging e k = omega (arith, e)
Settled-Known n rows (storing row) e k = omega (arith, e)

module _ {S : Type 0} (gateway_charge : ℕ → ℕ → S → GatewayOutcome × S) (uuid : ℕ → String)
    (requests : ℕ → PaymentRequest) where
  -- Any number of threads charge orders, several perhaps the same one, over rows in which each
  -- order has at most one. Whatever the order of their steps, a thread that has had three turns is
  -- done: it answered with its order's row, or raised since the order's row is there. No order has
  -- two rows at any time.
  pub run-Settled :
      (rows : List Payment) (s : S) (schedule : List ℕ) (i n : ℕ)
      → ((m : ℕ) → count_rows m rows ≤ 1)
      → 3 ≤ turns i schedule
      → let after = run gateway_charge uuid requests schedule (begun (rows, s)) in
        (count_rows n after.db.0 ≤ 1) × Settled (requests i).order_id after.db.0 (after.phase i)
  unfolding begun remaining
  run-Settled rows s schedule i n unique served = (
    fair.once n,
    Settled-Known (requests i).order_id after.db.0 (after.phase i)
        (omega
          (arith, served, remaining-run gateway_charge uuid requests i schedule (begun (rows, s))))
        (fair.known i),
  )
    where
      after : Threads S
      after = run gateway_charge uuid requests schedule (begun (rows, s))

      fair : IsFair gateway_charge uuid requests after
      fair =
          run-IsFair gateway_charge uuid requests schedule (begun (rows, s))
            (record { once = unique; known = λ j. tt })

  -- A thread that no other interrupts takes its three steps as one `charge`.
  pub run-charge :
      (rows : List Payment) (s : S) (i : ℕ)
      → let after = run gateway_charge uuid requests (i ∷ i ∷ i ∷ []) (begun (rows, s)) in
        let (result, db) = charge gateway_charge (uuid i) (requests i) (rows, s) in
        (after.phase i ≡ answered result) × (after.db ≡ db)
  unfolding run step set advance begun charge store
  run-charge rows s i = elim (Option-cases (find_payment (requests i).order_id rows)) [
    | inl fresh ↦ ground (arith, fresh)
    | inr (row, found) ↦ ground (arith, found)
  ]
