-- ===== src/System/Race.antt =====
-- Many threads of the Payment service in `charge` of app/payment/service.py, over the gateway client and
-- the route of fake_gateway/main.py: how often an order is charged.

mod Tests
use commerceops_ai_platform.Base.{
  ℕ, ◌≤◌, ◌≡◌, refl, ap, subst, sym, ◌∙◌, inl, inr, true, Bool-cases, some, none, Option-cases,
  String, List, [], ◌∷◌, ◌++◌, ◌==◌, if◌then◌else◌, arith,
}
use commerceops_ai_platform.Reliability.Protected.{Setup, Guarded}
use commerceops_ai_platform.Payment.{
  success, GatewayOutcome, IdempotencyKey, order_key, PaymentRequest, PaymentResult,
}
use commerceops_ai_platform.Payment.Gateway
use commerceops_ai_platform.Payment.Gateway.{is_success}
use commerceops_ai_platform.Payment.Service.{Payment, find_payment}
use commerceops_ai_platform.Payment.Service.Stored.{
  count_rows, find_payment-append, find_payment-append_other,
}
use commerceops_ai_platform.Payment.Service.Race.{
  Phase, selecting, charging, storing, answered, raised, Threads, set, advance, step, run, begun,
}
use commerceops_ai_platform.Payment.Service.Race.Fair.{Known, IsFair, step-IsFair}
use commerceops_ai_platform.FakeGateway
use commerceops_ai_platform.FakeGateway.{Draws, Gateway}
use commerceops_ai_platform.FakeGateway.Once.{IsConsistent}
use commerceops_ai_platform.System.Charges.{IsSequential, Charged, charge-Charged}
use commerceops_ai_platform.System.Grows.{charge-Grown}
use commerceops_ai_platform.System.Payments.{due, charges, IsBacked, due-Charged}

module _ {Z : Type 0} (gate : Z → Gateway) (draws : Z → Draws) (text_of : IdempotencyKey → String)
    (named : (order_id : ℕ) (d : Draws)
      → FakeGateway.key_of (some (text_of (order_key order_id))) d ≡ text_of (order_key order_id))
    (setup : Setup Z) (post : Gateway.Post Z)
    (laws : IsSequential gate draws text_of named setup post) where
  abbrev pub times : ℕ → Guarded Z → ℕ
  times = charges gate draws text_of named setup post laws

  abbrev Sound : List Payment × Guarded Z → Type 0
  Sound = IsBacked gate draws text_of named setup post laws 0 0

  -- What a thread that serves an order has of the gateway.
  abbrev Promised : ℕ → Guarded Z → Phase → Type 0
  Promised n g selecting = Unit {0}
  Promised n g charging = Unit {0}
  Promised n g (storing row) = due (some row) ≤ times n g
  Promised n g (answered result) = due (some result) ≤ times n g
  Promised n g raised = Unit {0}

  -- How many charges a thread's answer vouches for.
  abbrev pub owed : Phase → ℕ
  owed (answered result) = if is_success result.status then 1 else 0
  owed _ = 0

  owed-Promised : (n : ℕ) (g : Guarded Z) (p : Phase) → Promised n g p → owed p ≤ times n g
  owed-Promised n g selecting h = omega arith
  owed-Promised n g charging h = omega arith
  owed-Promised n g (storing row) h = omega arith
  owed-Promised n g (answered result) h = h
  owed-Promised n g raised h = omega arith

  Promised-grows :
      (n : ℕ) (g g' : Guarded Z) (p : Phase)
      → times n g ≤ times n g'
      → Promised n g p
      → Promised n g' p
  Promised-grows n g g' selecting h k = k
  Promised-grows n g g' charging h k = k
  Promised-grows n g g' (storing row) h k = omega (arith, h, k)
  Promised-grows n g g' (answered result) h k = omega (arith, h, k)
  Promised-grows n g g' raised h k = k

  record Kept (n : ℕ) (g : Guarded Z) (out : Phase × (List Payment × Guarded Z)) : Type 0 where
    sound : Sound out.1
    promised : Promised n out.1.1 out.0
    grows : (m : ℕ) → times m g ≤ times m out.1.1

  stored-Sound :
      (n : ℕ) (row : Payment) (rows : List Payment) (g : Guarded Z)
      → Sound (rows, g)
      → find_payment row.order_id rows ≡ none
      → row.order_id ≡ n
      → due (some row) ≤ times n g
      → Sound (rows ++ row ∷ [], g)
  stored-Sound n row rows g v fresh own h = record {
    consistent = v.consistent;
    backed = λ m. elim (Bool-cases (row.order_id == m)) [
      | inl mine ↦
          subst (λ k. due (find_payment k (rows ++ row ∷ [])) ≤ times k g)
            (same row.order_id m mine)
            (rw (find_payment-append row.order_id rows row fresh refl)
              (subst (λ k. due (some row) ≤ times k g) (sym own) h))
      | inr other ↦ rw (find_payment-append_other m rows row other) (v.backed m)
    ];
    grown = omega arith;
  }
    where
      same : (a b : ℕ) → (a == b) ≡ true → a ≡ b
      same a b e = ground (arith, e)

  advance-Kept :
      (u : String) (r : PaymentRequest) (p : Phase) (db : List Payment × Guarded Z)
      → Sound db
      → Known r.order_id db.0 p
      → Promised r.order_id db.1 p
      → Kept r.order_id db.1 (advance (Gateway.charge setup post) u r p db)
  unfolding advance
  advance-Kept u r selecting (rows, g) v k h = elim (Option-cases (find_payment r.order_id rows)) [
    | inl fresh ↦ rw fresh (record { sound = v; promised = tt; grows = λ m. omega arith })
    | inr (row, found) ↦ rw found (record {
      sound = v;
      promised = subst (λ x. due x ≤ times r.order_id g) found (v.backed r.order_id);
      grows = λ m. omega arith;
    })
  ]
  advance-Kept u r charging (rows, g) v k h = record {
    sound = record {
      consistent = charged.0;
      backed = λ m. grown m (due (find_payment m rows)) (v.backed m);
      grown = omega arith;
    };
    promised =
        due-Charged gate draws text_of named setup post laws 0 0 r out.0.status out.1 charged.1;
    grows = λ m. grown m (times m g) (omega arith);
  }
    where
      out : GatewayOutcome × Guarded Z
      out = Gateway.charge setup post r.order_id r.amount g

      grown : (m floor : ℕ) → floor ≤ times m g → floor ≤ times m out.1
      grown m floor =
          charge-Grown gate draws text_of named setup post laws r.order_id r.amount
            (text_of (order_key m)) floor g

      charged :
          IsConsistent (gate out.1.1.1)
          × Charged gate draws text_of named setup post laws r.order_id r.amount out.0.status
              out.1.1.1
      charged =
          charge-Charged gate draws text_of named setup post laws r.order_id r.amount g v.consistent
  advance-Kept u r (storing row) (rows, g) v k h =
      elim (Option-cases (find_payment row.order_id rows)) [
        | inl fresh ↦ rw fresh (record {
          sound = stored-Sound r.order_id row rows g v fresh k h;
          promised = h;
          grows = λ m. omega arith;
        })
        | inr (other, found) ↦
            rw found (record { sound = v; promised = tt; grows = λ m. omega arith })
      ]
  advance-Kept u r (answered result) db v k h = record {
    sound = v;
    promised = h;
    grows = λ m. omega arith;
  }
  advance-Kept u r raised db v k h = record { sound = v; promised = h; grows = λ m. omega arith }

  module _ (uuid : ℕ → String) (requests : ℕ → PaymentRequest) where
    abbrev gateway_charge : ℕ → ℕ → Guarded Z → GatewayOutcome × Guarded Z
    gateway_charge = Gateway.charge setup post

    record IsPaid (t : Threads (Guarded Z)) : Type 0 where
      fair : IsFair gateway_charge uuid requests t
      sound : Sound t.db
      promised : (i : ℕ) → Promised (requests i).order_id t.db.1 (t.phase i)

    step-IsPaid :
        (i : ℕ) (t : Threads (Guarded Z))
        → IsPaid t
        → IsPaid (step gateway_charge uuid requests i t)
    unfolding step set
    step-IsPaid i t v = record {
      fair = unfold step set in step-IsFair gateway_charge uuid requests i t v.fair;
      sound = kept.sound;
      promised = λ j. elim (Bool-cases (j == i)) [
        | inl mine ↦ rw mine (
            subst (λ k. Promised (requests k).order_id out.1.1 out.0) (sym (same j i mine))
              kept.promised)
        | inr other ↦ rw other (
            Promised-grows (requests j).order_id t.db.1 out.1.1 (t.phase j)
              (kept.grows (requests j).order_id) (v.promised j))
      ];
    }
      where
        out : Phase × (List Payment × Guarded Z)
        out = advance gateway_charge (uuid i) (requests i) (t.phase i) t.db

        kept : Kept (requests i).order_id t.db.1 out
        kept =
            advance-Kept (uuid i) (requests i) (t.phase i) t.db v.sound (v.fair.known i)
              (v.promised i)

        same : (a b : ℕ) → (a == b) ≡ true → a ≡ b
        same a b e = ground (arith, e)

    run-IsPaid :
        (schedule : List ℕ) (t : Threads (Guarded Z))
        → IsPaid t
        → IsPaid (run gateway_charge uuid requests schedule t)
    unfolding run
    run-IsPaid [] t v = v
    run-IsPaid (i ∷ schedule) t v =
        run-IsPaid schedule (step gateway_charge uuid requests i t) (step-IsPaid i t v)

    -- Any number of threads of the Payment service charge orders, several perhaps the same one, from
    -- rows in which each order has at most one and whose SUCCESS rows the gateway charged, with
    -- consistent books of the gateway. The calls
    -- of the gateway do not overlap, but any of its replies may be lost and any request be retried,
    -- and a key's text is not empty. Whatever the order of the threads' steps, and however they have
    -- answered so far: the gateway has executed any order's charge at most once, and at least once
    -- where a thread that serves the order has answered with SUCCESS.
    pub race_charged_once :
        (rows : List Payment) (g : Guarded Z) (schedule : List ℕ) (i n : ℕ) (phase : ℕ → Phase)
        (db : List Payment × Guarded Z)
        → ((m : ℕ) → count_rows m rows ≤ 1)
        → Sound (rows, g)
        → run gateway_charge uuid requests schedule (begun (rows, g))
          ≡ record { phase = phase; db = db }
        → (times n db.1 ≤ 1) × (owed (phase i) ≤ times (requests i).order_id db.1)
    unfolding begun
    race_charged_once rows g schedule i n phase db unique sound e = (
      ground (arith, ended.sound.consistent (text_of (order_key n))),
      owed-Promised (requests i).order_id db.1 (phase i) (ended.promised i),
    )
      where
        ended : IsPaid (record { phase = phase; db = db })
        ended = subst IsPaid e (
            run-IsPaid schedule (begun (rows, g)) (record {
              fair = record { once = unique; known = λ j. tt };
              sound = sound;
              promised = λ j. tt;
            }))
