-- ===== src/Drills/Polling.antt =====
-- The loop `while time.monotonic() < deadline: …` of the drills of loadtest/ha_experiment.py.
use commerceops_ai_platform.Base.{
  ℕ, zero, suc, ◌+◌, ◌*◌, ◌≤◌, ◌≡◌, ◌≢◌, inl, inr, Bool-cases, ltb, if◌then◌else◌, Result, ok, err,
  arith,
}
use commerceops_ai_platform.Drills.{Stop, out_of_fuel, Tools}

-- How a round ends: it goes on, or it leaves the loop by `break`.
pub data Round (D : Type 0) : Type 0 where
  again break_with : D → Round D

module _ {S D : Type 0} (tools : Tools S) (body : D → S → Result Stop (Round D) × S) where
  abbrev pub continued : (D → S → Result Stop D × S) → Result Stop (Round D) × S → Result Stop D × S
  continued loop (ok (again d), s) = loop d s
  continued loop (ok (break_with d), s) = (ok d, s)
  continued loop (err e, s) = (err e, s)

  unfoldable pub poll_until : ℕ → ℕ → D → S → Result Stop D × S
  poll_until zero deadline d s =
      let (now, s') = tools.monotonic s in
      if ltb now deadline then (err out_of_fuel, s') else (ok d, s')
  poll_until (suc n) deadline d s =
      let (now, s') = tools.monotonic s in
      let rest = continued (poll_until n deadline) (body d s') in
      if ltb now deadline then rest else (ok d, s')

-- A clock that does not go back: what it reads is the time, and reading takes none off.
pub record IsClock {S : Type 0} (tools : Tools S) (time : S → ℕ) : Type 0 where
  pub reads : (s : S) → (tools.monotonic s).0 ≡ time s
  pub time-monotonic : (s : S) → time s ≤ time (tools.monotonic s).1
  pub time-sleep : (d : ℕ) (s : S) → time s + d ≤ time (tools.sleep d s)

module _ {S D : Type 0} (tools : Tools S) (body : D → S → Result Stop (Round D) × S) (time : S → ℕ)
    (clock : IsClock tools time) (poll_interval : ℕ) where
  -- A round that goes on takes the poll interval at least, and no round runs out of fuel.
  abbrev pub Takes : S → Result Stop (Round D) × S → Type 0
  Takes s (ok (again d), s') = time s + poll_interval ≤ time s'
  Takes s (ok (break_with d), s') = Unit {0}
  Takes s (err e, s') = e ≢ out_of_fuel

  -- The loop ends: its fuel is enough where the poll interval, as often, reaches the deadline.
  pub poll_until_ends :
      (rounds : (d : D) (s : S) → Takes s (body d s)) (fuel deadline : ℕ) (d : D) (s : S)
      → deadline ≤ time s + fuel * poll_interval
      → (poll_until tools body fuel deadline d s).0 ≢ err out_of_fuel
  unfolding poll_until
  poll_until_ends rounds zero deadline d s h = λ e. ground (arith, h, e, clock.reads s)
  poll_until_ends rounds (suc n) deadline d s h =
      elim (Bool-cases (ltb (tools.monotonic s).0 deadline)) [
        | inr over ↦ rw over (λ e. ground (arith, e))
        | inl early ↦ rw early (
            go (λ d' s' k. poll_until_ends rounds n deadline d' s' k) (body d (tools.monotonic s).1)
              (rounds d (tools.monotonic s).1) (clock.time-monotonic s))
      ]
    where
      go :
          ((d' : D) (s' : S)
            → deadline ≤ time s' + n * poll_interval
            → (poll_until tools body n deadline d' s').0 ≢ err out_of_fuel)
          → (out : Result Stop (Round D) × S) → Takes (tools.monotonic s).1 out
          → time s ≤ time (tools.monotonic s).1
          → (continued tools body (poll_until tools body n deadline) out).0 ≢ err out_of_fuel
      go ih (ok (again d'), s') t m = ih d' s' (omega (arith, h, t, m))
      go ih (ok (break_with d'), s') t m = λ e. ground (arith, e)
      go ih (err x, s') t m = λ e. t (ground (arith, e))
