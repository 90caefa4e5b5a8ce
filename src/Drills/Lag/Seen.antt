-- ===== src/Drills/Lag/Seen.antt =====
-- What the exit status of `cmd_lag` of loadtest/ha_experiment.py says, and that the drill ends.
use commerceops_ai_platform.Base.{
  ℕ, ◌+◌, ◌*◌, ◌≤◌, ◌≢◌, Bool, true, false, Option, none, some, Result, ok, err, arith,
}
use commerceops_ai_platform.Drills.{Answer, response, http_error, Stop, out_of_fuel, Tools}
use commerceops_ai_platform.Drills.Polling.{IsClock, Takes, poll_until_ends}
use commerceops_ai_platform.Drills.Lag.{
  Stack, Settings, Probe, looked, probe, readied, seen, concluded, watched,
}

module _ {S : Type 0} (tools : Tools S) (stack : Stack S) (settings : Settings) (time : S → ℕ)
    (clock : IsClock tools time) where
  -- A query takes no time off the clock.
  pub record IsTimed : Type 0 where
    pub time-find_on_replica :
        (product_id : ℕ) (s : S) → time s ≤ time (stack.find_on_replica product_id s).1

  module _ (laws : IsTimed) where
    looked-Takes :
        (product_id : ℕ) (p : Probe) (s : S) (o : Option Bool × S)
        → time s ≤ time o.1
        → Takes tools
            (probe tools stack settings product_id)
            time
            clock
            settings.poll_interval
            s
            (looked tools stack settings p o)
    looked-Takes product_id p s (some true, s') h = tt
    looked-Takes product_id p s (some false, s') h =
        omega (arith, h, clock.time-sleep settings.poll_interval s')
    looked-Takes product_id p s (none, s') h =
        omega (arith, h, clock.time-sleep settings.poll_interval s')

    concluded_ends :
        (out : Result Stop Probe × S)
        → out.0 ≢ err out_of_fuel
        → (concluded tools stack settings out).0 ≢ err out_of_fuel
    concluded_ends (err x, s) h = λ e. h (ground (arith, e))
    concluded_ends (ok p, s) h = go p.first_seen_at
      where
        read : (lag : ℕ) (o : Answer × S) → (readied tools stack settings lag o).0 ≢ err out_of_fuel
        read lag (http_error, s') = λ e. ground (arith, e)
        read lag (response code id, s') = λ e. ground (arith, e)

        go : (at : Option ℕ) → (seen tools stack settings at p.samples s).0 ≢ err out_of_fuel
        go none = λ e. ground (arith, e)
        go (some at) = read (p.samples * settings.poll_interval) (stack.get_ready s)

    -- The drill ends, by an exit status or by an exception that nothing catches, where the clock does
    -- not go back, a query takes no time off it, and the poll interval, as often as there is fuel,
    -- makes up the timeout.
    pub watched_ends :
        (fuel product_id : ℕ) (s : S)
        → settings.timeout ≤ fuel * settings.poll_interval
        → (watched tools stack settings fuel product_id s).0 ≢ err out_of_fuel
    unfolding watched probe
    watched_ends fuel product_id s enough = concluded_ends _ (
        poll_until_ends tools (probe tools stack settings product_id) time clock
          settings.poll_interval
          (λ p s'.
            looked-Takes product_id (record p { samples = p.samples + 1 }) s'
              (stack.find_on_replica product_id s') (laws.time-find_on_replica product_id s'))
          fuel ((tools.monotonic s).0 + settings.timeout)
          (record { samples = 0; first_seen_at = none }) (tools.monotonic s).1
          (omega (arith, enough, clock.reads s, clock.time-monotonic s)))
