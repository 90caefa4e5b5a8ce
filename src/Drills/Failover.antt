-- ===== src/Drills/Failover.antt =====
-- `cmd_failover_aws` of loadtest/ha_experiment.py: orders are placed during a forced failover, and its
-- verdict is the exit status.
pub mod Verdict
pub mod Ends
pub mod Log
pub mod Observed
pub mod Judged
use commerceops_ai_platform.Base.{
  ℕ, zero, suc, ◌+◌, ◌-◌, Bool, true, false, ◌&&◌, Option, none, some, List, [], ◌∷◌, ◌++◌, length,
  leb, ltb, ◌==◌, if◌then◌else◌, Result, ok, err,
}
use commerceops_ai_platform.Drills.{
  Answer, response, http_error, Stop, raised_key, Tools, is_2xx, seed,
}
use commerceops_ai_platform.Drills.Polling.{Round, again, break_with, poll_until}

-- The requests to the application, and the exit status of `aws rds reboot-db-instance`.
pub record Stack (S : Type 0) : Type 0 where
  pub reboot : S → ℕ × S
  pub get_health : S → Answer × S
  pub post_order : (customer_id product_id : ℕ) → S → Answer × S
  pub get_order : (order_id : ℕ) → S → Answer × S

-- `args`, and `RTO_BUDGET_SECONDS`.
pub record Settings : Type 0 where
  pub timeout : ℕ
  pub poll_interval : ℕ
  pub min_success_after : ℕ
  pub rto_budget : ℕ

-- The variables of the loop.
pub record Watch : Type 0 where
  pub confirmed : List ℕ
  pub downtime_started : Option ℕ
  pub downtime_ended : Option ℕ
  pub health_flips : ℕ

abbrev pub is_some : {A : Type 0} → Option A → Bool
is_some none = false
is_some (some a) = true

abbrev pub is_200 : Answer → Bool
is_200 http_error = false
is_200 (response code id) = code == 200

module _ {S : Type 0} (tools : Tools S) (stack : Stack S) (settings : Settings) where
  abbrev pub with_health : Watch → Answer × S → Watch × S
  with_health w (answer, s) =
      ((if is_200 answer then w else record w { health_flips = w.health_flips + 1 }), s)

  -- An order failed.
  abbrev pub down : Option ℕ → Watch → S → Watch × S
  down (some started) w s = (w, s)
  down none w s =
      let (now, s') = tools.monotonic s in (record w { downtime_started = some now }, s')

  -- An order was placed.
  abbrev pub up : Option ℕ → Option ℕ → Watch → S → Watch × S
  up (some started) none w s =
      let (now, s') = tools.monotonic s in (record w { downtime_ended = some now }, s')
  up (some started) (some ended) w s = (w, s)
  up none ended w s = (w, s)

  abbrev pub returned : Watch × S → Result Stop Watch × S
  returned (w, s) = (ok w, s)

  abbrev pub confirmed_as : Option ℕ → Watch → S → Result Stop Watch × S
  confirmed_as none w s = (err raised_key, s)
  confirmed_as (some id) w s =
      returned
        (up w.downtime_started w.downtime_ended (record w { confirmed = w.confirmed ++ id ∷ [] }) s)

  abbrev pub with_order : Watch → Answer × S → Result Stop Watch × S
  with_order w (http_error, s) = returned (down w.downtime_started w s)
  with_order w (response code id, s) =
      if is_2xx code then confirmed_as id w s else returned (down w.downtime_started w s)

  -- The test of the `break`.
  abbrev pub is_over : Watch → Bool
  is_over w =
      is_some w.downtime_started
      && is_some w.downtime_ended
      && leb settings.min_success_after (length w.confirmed)

  abbrev pub rested : Result Stop Watch × S → Result Stop (Round Watch) × S
  rested (err e, s) = (err e, s)
  rested (ok w, s) =
      if is_over w
      then (ok (break_with w), s)
      else (ok (again w), tools.sleep settings.poll_interval s)

  -- The body of the loop.
  unfoldable pub watch : ℕ → ℕ → Watch → S → Result Stop (Round Watch) × S
  watch customer_id product_id w s =
      let (w', s') = with_health w (stack.get_health s) in
      rested (with_order w' (stack.post_order customer_id product_id s'))

  -- `rto`, unless the service is still down.
  abbrev pub rto_of : Option ℕ → Option ℕ → S → Option ℕ × S
  rto_of none ended s = (some 0, s)
  rto_of (some started) none s = (none, (tools.monotonic s).1)
  rto_of (some started) (some ended) s = (some (ended - started), s)

  -- `missing`
  unfoldable pub missing : List ℕ → S → ℕ × S
  missing [] s = (0, s)
  missing (id ∷ ids) s =
      let (answer, s') = stack.get_order id s in
      let (n, s'') = missing ids s' in ((if is_200 answer then n else n + 1), s'')

  abbrev pub checked : ℕ → ℕ × S → ℕ × S
  checked rto (lost, s) =
      ((if ltb 0 lost then 1 else if ltb settings.rto_budget rto then 1 else 0), s)

  abbrev pub concluded : List ℕ → Option ℕ × S → ℕ × S
  concluded confirmed (none, s) = (1, s)
  concluded confirmed (some rto, s) = checked rto (missing confirmed s)

  -- What follows the loop.
  unfoldable pub verdict : Watch → S → ℕ × S
  unfolding missing
  verdict w s = concluded w.confirmed (rto_of w.downtime_started w.downtime_ended s)

  abbrev pub exit_with : Result Stop Watch × S → Result Stop ℕ × S
  exit_with (err e, s) = (err e, s)
  exit_with (ok w, s) = let (code, s') = verdict w s in (ok code, s')

  abbrev pub watching : Watch
  watching = record {
    confirmed = [];
    downtime_started = none;
    downtime_ended = none;
    health_flips = 0;
  }

  -- From the request for the failover on.
  abbrev pub rebooted : ℕ → ℕ → ℕ → ℕ × S → Result Stop ℕ × S
  rebooted fuel customer_id product_id (code, s) =
      let (failover_started, s') = tools.monotonic s in
      let done = exit_with (
        poll_until tools (watch customer_id product_id) fuel (failover_started + settings.timeout)
          watching s') in
      if code == 0 then done else (ok 1, s)

  abbrev pub seeded : ℕ → Result Stop (ℕ × ℕ) × S → Result Stop ℕ × S
  seeded fuel (err e, s) = (err e, s)
  seeded fuel (ok (customer_id, product_id), s) =
      rebooted fuel customer_id product_id (stack.reboot s)

  unfoldable pub cmd_failover_aws : ℕ → S → Result Stop ℕ × S
  unfolding verdict watch
  cmd_failover_aws fuel s = seeded fuel (seed tools s)
