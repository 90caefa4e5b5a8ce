-- ===== src/Drills/Promotion.antt =====
-- `cmd_promote_local` of loadtest/ha_experiment.py: orders are placed while the primary is stopped and the
-- standby promoted, and the confirmed ones are looked up on the standby.
pub mod Survivors
use commerceops_ai_platform.Base.{
  ℕ, suc, ◌+◌, ◌-◌, ◌/◌, Bool, true, false, ◌&&◌, not, Option, none, some, List, [], ◌∷◌, ◌++◌,
  length, leb, if◌then◌else◌, Result, ok, err,
}
use commerceops_ai_platform.Drills.{
  Answer, response, http_error, Stop, raised_key, Tools, is_2xx, seed,
}
use commerceops_ai_platform.Drills.Polling.{Round, again, poll_until}

-- `docker compose stop db`, `pg_ctl promote`, the requests, and `_replica_psql` for an order: `none` is
-- its `RuntimeError`, `some b` says whether it printed anything.
pub record Stack (S : Type 0) : Type 0 where
  pub stop_primary : S → S
  pub promote : S → S
  pub post_order : (customer_id product_id : ℕ) → S → Answer × S
  pub find_on_replica : (order_id : ℕ) → S → Option Bool × S

-- `args`
pub record Settings : Type 0 where
  pub duration : ℕ
  pub poll_interval : ℕ

-- The variables of the loop.
pub record Writer : Type 0 where
  pub confirmed : List ℕ
  pub errors : ℕ
  pub promoted : Bool

-- What the drill reports.
pub record Report : Type 0 where
  pub confirmed : List ℕ
  pub survived : ℕ
  pub lost : ℕ

module _ {S : Type 0} (tools : Tools S) (stack : Stack S) (settings : Settings) where
  -- The clock is read only where the standby is not promoted yet.
  abbrev pub promotion : ℕ → Writer → S → Writer × S
  promotion promote_at w s =
      let (now, s') = tools.monotonic s in
      if w.promoted
      then (w, s)
      else if leb promote_at now
      then (record w { promoted = true }, stack.promote (stack.stop_primary s'))
      else (w, s')

  abbrev pub refused : Writer → S → Result Stop Writer × S
  refused w s = (ok (record w { errors = w.errors + 1 }), s)

  abbrev pub placed : Option ℕ → Writer → S → Result Stop Writer × S
  placed none w s = (err raised_key, s)
  placed (some id) w s = (ok (record w { confirmed = w.confirmed ++ id ∷ [] }), s)

  abbrev pub with_order : Writer → Answer × S → Result Stop Writer × S
  with_order w (http_error, s) = refused w s
  with_order w (response code id, s) = if is_2xx code then placed id w s else refused w s

  abbrev pub rested : Result Stop Writer × S → Result Stop (Round Writer) × S
  rested (err e, s) = (err e, s)
  rested (ok w, s) = (ok (again w), tools.sleep settings.poll_interval s)

  -- The body of the loop; the two readings of the clock around the request are for nothing.
  unfoldable pub write : ℕ → ℕ → ℕ → Writer → S → Result Stop (Round Writer) × S
  write promote_at customer_id product_id w s =
      let (w', s') = promotion promote_at w s in
      rested (with_order w' (stack.post_order customer_id product_id s'))

  -- An error counts as an order that is not there.
  abbrev pub is_found : Option Bool → Bool
  is_found none = false
  is_found (some printed) = printed

  -- `survived`
  unfoldable pub survived : List ℕ → S → ℕ × S
  survived [] s = (0, s)
  survived (id ∷ ids) s =
      let (found, s') = stack.find_on_replica id s in
      let (n, s'') = survived ids s' in ((if is_found found then suc n else n), s'')

  unfoldable pub report : List ℕ → S → Report × S
  unfolding survived
  report confirmed s =
      let (n, s') = survived confirmed s in
      (record { confirmed = confirmed; survived = n; lost = length confirmed - n }, s')

  abbrev pub reported : Result Stop Writer × S → Result Stop Report × S
  reported (err e, s) = (err e, s)
  reported (ok w, s) = let (r, s') = report w.confirmed s in (ok r, s')

  abbrev pub seeded : ℕ → Result Stop (ℕ × ℕ) × S → Result Stop Report × S
  seeded fuel (err e, s) = (err e, s)
  seeded fuel (ok (customer_id, product_id), s) =
      let (started, s') = tools.monotonic s in
      let (halfway, s'') = tools.monotonic s' in
      reported (
        poll_until tools (write (halfway + settings.duration / 2) customer_id product_id) fuel
          (started + settings.duration) (record { confirmed = []; errors = 0; promoted = false })
          s'')

  -- Its exit status is 0 whatever it reports.
  unfoldable pub cmd_promote_local : ℕ → S → Result Stop Report × S
  unfolding report write
  cmd_promote_local fuel s = seeded fuel (seed tools s)
