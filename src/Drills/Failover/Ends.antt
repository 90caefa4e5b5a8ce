-- ===== src/Drills/Failover/Ends.antt =====
-- `cmd_failover_aws` of loadtest/ha_experiment.py ends.
use commerceops_ai_platform.Base.{
  ℕ, ◌+◌, ◌*◌, ◌≤◌, ◌≢◌, inl, inr, Bool-cases, Option, none, some, ◌==◌, Result, ok, err, arith,
}
use commerceops_ai_platform.Drills.{
  Answer, response, http_error, Stop, out_of_fuel, Tools, is_2xx, seed, with_customer, with_product,
}
use commerceops_ai_platform.Drills.Polling.{IsClock, Takes, poll_until_ends}
use commerceops_ai_platform.Drills.Failover.{
  Stack, Settings, Watch, watch, exit_with, rebooted, seeded, watching, cmd_failover_aws,
  with_health, with_order, confirmed_as, down, up, returned, rested, is_over,
}

module _ {S : Type 0} (tools : Tools S) (stack : Stack S) (settings : Settings) (time : S → ℕ)
    (clock : IsClock tools time) where
  -- The requests take no time off the clock.
  pub record IsTimed : Type 0 where
    pub time-get_health : (s : S) → time s ≤ time (stack.get_health s).1
    pub time-post_order :
        (customer_id product_id : ℕ) (s : S)
        → time s ≤ time (stack.post_order customer_id product_id s).1

  abbrev Later : S → Result Stop Watch × S → Type 0
  Later s (ok w, s') = time s ≤ time s'
  Later s (err e, s') = e ≢ out_of_fuel

  down-Later :
      (started : Option ℕ) (w : Watch) (s s' : S)
      → time s ≤ time s'
      → Later s (returned tools stack settings (down tools stack settings started w s'))
  down-Later (some a) w s s' h = h
  down-Later none w s s' h = omega (arith, h, clock.time-monotonic s')

  up-Later :
      (started ended : Option ℕ) (w : Watch) (s s' : S)
      → time s ≤ time s'
      → Later s (returned tools stack settings (up tools stack settings started ended w s'))
  up-Later (some a) none w s s' h = omega (arith, h, clock.time-monotonic s')
  up-Later (some a) (some b) w s s' h = h
  up-Later none ended w s s' h = h

  with_order-Later :
      (w : Watch) (answer : Answer) (s s' : S)
      → time s ≤ time s'
      → Later s (with_order tools stack settings w (answer, s'))
  with_order-Later w http_error s s' h = down-Later w.downtime_started w s s' h
  with_order-Later w (response code id) s s' h = elim (Bool-cases (is_2xx code)) [
    | inr failed ↦ rw failed (down-Later w.downtime_started w s s' h)
    | inl placed ↦ rw placed (go id)
  ]
    where
      go : (id : Option ℕ) → Later s (confirmed_as tools stack settings id w s')
      go none = λ e. ground (arith, e)
      go (some n) = up-Later w.downtime_started w.downtime_ended _ s s' h

  rested-Takes :
      (s : S) (out : Result Stop Watch × S)
      → Later s out
      → Takes tools
          (watch tools stack settings 0 0)
          time
          clock
          settings.poll_interval
          s
          (rested tools stack settings out)
  rested-Takes s (err e, s') h = h
  rested-Takes s (ok w, s') h = elim (Bool-cases (is_over tools stack settings w)) [
    | inl over ↦ rw over tt
    | inr goes_on ↦ rw goes_on (omega (arith, h, clock.time-sleep settings.poll_interval s'))
  ]

  module _ (laws : IsTimed) where
    watch-Takes :
        (customer_id product_id : ℕ) (w : Watch) (s : S)
        → Takes tools
            (watch tools stack settings 0 0)
            time
            clock
            settings.poll_interval
            s
            (watch tools stack settings customer_id product_id w s)
    unfolding watch
    watch-Takes customer_id product_id w s =
        let w' = (with_health tools stack settings w (stack.get_health s)).0 in
        let s' = (stack.get_health s).1 in
        rested-Takes s _ (
          with_order-Later w' (stack.post_order customer_id product_id s').0 s
            (stack.post_order customer_id product_id s').1
            (omega (arith, laws.time-get_health s, laws.time-post_order customer_id product_id s')))

    exit_with_ends :
        (out : Result Stop Watch × S)
        → out.0 ≢ err out_of_fuel
        → (exit_with tools stack settings out).0 ≢ err out_of_fuel
    exit_with_ends (ok w, s) h = λ e. ground (arith, e)
    exit_with_ends (err x, s) h = λ e. h (ground (arith, e))

    -- The drill ends, by an exit status or by an exception that nothing catches, where the clock does
    -- not go back, a request takes no time off it, and the poll interval, as often as there is fuel,
    -- makes up the timeout.
    pub cmd_failover_aws_ends :
        (fuel : ℕ) (s : S)
        → settings.timeout ≤ fuel * settings.poll_interval
        → (cmd_failover_aws tools stack settings fuel s).0 ≢ err out_of_fuel
    unfolding cmd_failover_aws seed
    cmd_failover_aws_ends fuel s enough = seeding (tools.post_customer s)
      where
        rebooting :
            (customer_id product_id : ℕ) (o : ℕ × S)
            → (rebooted tools stack settings fuel customer_id product_id o).0 ≢ err out_of_fuel
        rebooting customer_id product_id (code, s') = elim (Bool-cases (code == 0)) [
          | inr failed ↦ rw failed (λ e. ground (arith, e))
          | inl done ↦ rw done (
              exit_with_ends _ (
                poll_until_ends tools (watch tools stack settings customer_id product_id) time clock
                  settings.poll_interval (watch-Takes customer_id product_id) fuel
                  ((tools.monotonic s').0 + settings.timeout) (watching tools stack settings)
                  (tools.monotonic s').1
                  (omega (arith, enough, clock.reads s', clock.time-monotonic s'))))
        ]

        product :
            (customer : Option ℕ) (o : Answer × S)
            → (seeded tools stack settings fuel (with_product tools customer o)).0 ≢ err out_of_fuel
        product customer (http_error, s') = λ e. ground (arith, e)
        product none (response code id, s') = λ e. ground (arith, e)
        product (some n) (response code none, s') = λ e. ground (arith, e)
        product (some n) (response code (some m), s') = rebooting n m (stack.reboot s')

        seeding :
            (o : Answer × S)
            → (seeded tools stack settings fuel (with_customer tools o)).0 ≢ err out_of_fuel
        seeding (http_error, s') = λ e. ground (arith, e)
        seeding (response code customer, s') = product customer (tools.post_product s')
