-- ===== src/Drills/Chaos.antt =====
-- loadtest/chaos_experiment.py: the orders that a scenario places and their summary, the scenario of
-- the failing gateway, and the end of the one of the crashed worker. The threads of `_place_orders` are
-- taken one order after another, in the order in which they finish, and every body is JSON.

pub mod Summary
use commerceops_ai_platform.Base.{
  ⊤, ℕ, zero, suc, ◌+◌, ◌-◌, ◌*◌, ◌/◌, Bool, true, false, ◌&&◌, Option, none, some, String, str_eq,
  List, [], ◌∷◌, ◌++◌, length, leb, ◌==◌, if◌then◌else◌, Result, ok, err, Exec, pure, ◌>>=◌, ◌>>◌,
  max,
}
use commerceops_ai_platform.Drills.{Stop, Tools, seed}
use commerceops_ai_platform.FakeGateway.Chaos.{ChaosConfig, no_chaos}

-- A key of `statuses`: the order's status, `HTTP_{code}` where the body has none, or `CLIENT_{name}`.
pub data Outcome : Type 0 where
  status : String → Outcome
  http : ℕ → Outcome
  client : String → Outcome

abbrev pub same : Outcome → Outcome → Bool
same (status a) (status b) = str_eq a b
same (http m) (http n) = m == n
same (client a) (client b) = str_eq a b
same _ _ = false

-- `statuses[status] = statuses.get(status, 0) + 1`
unfoldable pub tally : Outcome → List (Outcome × ℕ) → List (Outcome × ℕ)
tally o [] = (o, 1) ∷ []
tally o ((k, n) ∷ rest) =
    let later = tally o rest in if same k o then (k, n + 1) ∷ rest else (k, n) ∷ later

-- `latencies.sort()`
abbrev pub insert_sorted : ℕ → List ℕ → List ℕ
insert_sorted x [] = x ∷ []
insert_sorted x (y ∷ ys) =
    let later = insert_sorted x ys in if leb x y then x ∷ y ∷ ys else y ∷ later

unfoldable pub sort : List ℕ → List ℕ
sort [] = []
sort (x ∷ xs) = insert_sorted x (sort xs)

-- `latencies[-1]` where there is one
abbrev pub last : List ℕ → Option ℕ
last [] = none
last (x ∷ []) = some x
last (x ∷ y ∷ ys) = last (y ∷ ys)

pub record Placed : Type 0 where
  pub statuses : List (Outcome × ℕ)
  pub latencies : List ℕ

-- What `_place_orders` returns, without the rounding and without the median.
pub record Report : Type 0 where
  pub statuses : List (Outcome × ℕ)
  pub max_ms : Option ℕ

-- The stack of a scenario: the request for an order, and the gateway's endpoints, which may raise.
pub record Stack (S : Type 0) : Type 0 where
  pub post_order : (customer_id product_id : ℕ) → S → Outcome × S
  pub set_chaos : ChaosConfig → S → Result Stop ⊤ × S
  pub reset_gateway : S → Result Stop ⊤ × S
  pub gateway_charges : S → Result Stop ⊤ × S
  pub depth : S → (ℕ × ℕ) × S

module _ {S : Type 0} (tools : Tools S) (stack : Stack S) where
  -- `_one`
  unfoldable pub one : (customer_id product_id : ℕ) → Placed → S → Placed × S
  unfolding tally
  one customer_id product_id placed s =
      let (started, s1) = tools.monotonic s in
      let (outcome, s2) = stack.post_order customer_id product_id s1 in
      let (ended, s3) = tools.monotonic s2 in
      (
        record {
          statuses = tally outcome placed.statuses;
          latencies = placed.latencies ++ (ended - started) ∷ [];
        },
        s3,
      )

  unfoldable pub place_each : (customer_id product_id : ℕ) → ℕ → Placed → S → Placed × S
  unfolding one
  place_each customer_id product_id zero placed s = (placed, s)
  place_each customer_id product_id (suc n) placed s =
      let (placed', s') = one customer_id product_id placed s in
      place_each customer_id product_id n placed' s'

  unfoldable pub place_orders : (customer_id product_id count : ℕ) → S → Report × S
  unfolding place_each sort
  place_orders customer_id product_id count s =
      let (placed, s') =
        place_each customer_id product_id count (record { statuses = []; latencies = [] }) s in
      (record { statuses = placed.statuses; max_ms = last (sort placed.latencies) }, s')

  abbrev pub returned : {A : Type 0} → A × S → Result Stop A × S
  returned (a, s) = (ok a, s)

  -- `scenario_failure`, whose chaos is an error rate of one half and no decline; what it prints is left
  -- out.
  unfoldable pub scenario_failure : ℕ → Exec S Stop Report
  unfolding place_orders
  scenario_failure orders = do
    reset ← stack.reset_gateway
    ids ← seed tools
    set ← stack.set_chaos (record no_chaos { error_rate = 500000; success_rate = 1000000 })
    report ← (λ s. returned (place_orders ids.0 ids.1 orders s))
    charges ← stack.gateway_charges
    again ← stack.reset_gateway
    pure report

  abbrev pub is_drained : ℕ × ℕ → Bool
  is_drained (visible, in_flight) = visible == 0 && in_flight == 0

  -- The end of `scenario_crash`: whether one of its 24 readings found the queue drained.
  unfoldable pub drained : ℕ → S → Bool × S
  drained zero s = (false, s)
  drained (suc n) s =
      let (current, s') = stack.depth (tools.sleep 5000 s) in
      let later = drained n s' in if is_drained current then (true, s') else later
