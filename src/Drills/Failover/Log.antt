-- ===== src/Drills/Failover/Log.antt =====
-- What the requests of `cmd_failover_aws` of loadtest/ha_experiment.py for orders were answered, and
-- when.
use commerceops_ai_platform.Base.{
  ℕ, ◌≡◌, Bool, true, false, ◌&&◌, Option, none, some, List, [], ◌∷◌, ◌++◌, if◌then◌else◌,
}
use commerceops_ai_platform.Drills.{Answer, response, http_error, Tools, is_2xx}
use commerceops_ai_platform.Drills.Failover.{Stack, is_some}

-- The answers to the orders, the newest first, with the times at which they came.
abbrev pub Log : Type 0
Log = List (Answer × ℕ)

abbrev pub is_placed : Answer → Bool
is_placed http_error = false
is_placed (response code id) = is_2xx code

abbrev pub earliest : Option ℕ → Option ℕ → Option ℕ
earliest none late = late
earliest (some early) late = some early

abbrev pub when : Bool → ℕ → Option ℕ
when true time = some time
when false time = none

-- The time of the first order that failed.
unfoldable pub first_failure : Log → Option ℕ
first_failure [] = none
first_failure ((answer, time) ∷ before) =
    earliest (first_failure before) (if is_placed answer then none else some time)

-- The time of the first order after it that was placed.
unfoldable pub first_recovery : Log → Option ℕ
first_recovery [] = none
first_recovery ((answer, time) ∷ before) =
    earliest (first_recovery before)
      (when (is_placed answer && is_some (first_failure before)) time)

abbrev pub id_of : Answer → List ℕ
id_of (response code (some id)) = id ∷ []
id_of _ = []

-- The orders that were placed, the oldest first.
unfoldable pub placed_ids : Log → List ℕ
placed_ids [] = []
placed_ids ((answer, time) ∷ before) =
    let ids = placed_ids before in if is_placed answer then ids ++ id_of answer else ids

-- What is used of the clock and of the stack: `seen` is what the requests for orders were answered,
-- and when, and nothing else adds to it. The clock gives the time, which reading it does not change.
pub record IsObserved {S : Type 0} (tools : Tools S) (stack : Stack S) (time : S → ℕ)
    (seen : S → Log) : Type 0 where
  pub reads : (s : S) → (tools.monotonic s).0 ≡ time s
  pub seen-monotonic : (s : S) → seen (tools.monotonic s).1 ≡ seen s
  pub seen-sleep : (d : ℕ) (s : S) → seen (tools.sleep d s) ≡ seen s
  pub seen-post_customer : (s : S) → seen (tools.post_customer s).1 ≡ seen s
  pub seen-post_product : (s : S) → seen (tools.post_product s).1 ≡ seen s
  pub seen-reboot : (s : S) → seen (stack.reboot s).1 ≡ seen s
  pub seen-get_health : (s : S) → seen (stack.get_health s).1 ≡ seen s
  pub seen-get_order : (id : ℕ) (s : S) → seen (stack.get_order id s).1 ≡ seen s
  pub seen-post_order :
      (customer_id product_id : ℕ) (s : S)
      → let (answer, s') = stack.post_order customer_id product_id s in
        seen s' ≡ (answer, time s') ∷ seen s
