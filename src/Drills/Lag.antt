-- ===== src/Drills/Lag.antt =====
-- `cmd_lag` of loadtest/ha_experiment.py: a product is written on the primary and looked for on the
-- replica.
pub mod Seen
use commerceops_ai_platform.Base.{
  ℕ, ◌+◌, ◌*◌, Bool, true, false, Option, none, some, if◌then◌else◌, Result, ok, err,
}
use commerceops_ai_platform.Drills.{
  Answer, response, http_error, Stop, raised_http, raised_key, Tools, is_2xx,
}
use commerceops_ai_platform.Drills.Polling.{Round, again, break_with, poll_until}

-- The requests, and `_replica_psql` for a product: `none` is its `RuntimeError`, `some b` says whether it
-- printed anything.
pub record Stack (S : Type 0) : Type 0 where
  pub post_product : S → Answer × S
  pub find_on_replica : (product_id : ℕ) → S → Option Bool × S
  pub get_ready : S → Answer × S

-- `args`
pub record Settings : Type 0 where
  pub timeout : ℕ
  pub poll_interval : ℕ

-- The variables of the loop.
pub record Probe : Type 0 where
  pub samples : ℕ
  pub first_seen_at : Option ℕ

-- The exit status, and `lag_ms` where the product was seen.
pub record Verdict : Type 0 where
  pub code : ℕ
  pub lag_ms : Option ℕ

module _ {S : Type 0} (tools : Tools S) (stack : Stack S) (settings : Settings) where
  abbrev pub looked : Probe → Option Bool × S → Result Stop (Round Probe) × S
  looked p (some true, s) =
      let (now, s') = tools.monotonic s in
      (ok (break_with (record p { first_seen_at = some now })), s')
  looked p (some false, s) = (ok (again p), tools.sleep settings.poll_interval s)
  looked p (none, s) = (ok (again p), tools.sleep settings.poll_interval s)

  -- The body of the loop.
  unfoldable pub probe : ℕ → Probe → S → Result Stop (Round Probe) × S
  probe product_id p s =
      looked (record p { samples = p.samples + 1 }) (stack.find_on_replica product_id s)

  abbrev pub readied : ℕ → Answer × S → Result Stop Verdict × S
  readied lag (http_error, s) = (err raised_http, s)
  readied lag (response code id, s) = (ok (record { code = 0; lag_ms = some lag }), s)

  abbrev pub seen : Option ℕ → ℕ → S → Result Stop Verdict × S
  seen none samples s = (ok (record { code = 1; lag_ms = none }), s)
  seen (some at) samples s = readied (samples * settings.poll_interval) (stack.get_ready s)

  abbrev pub concluded : Result Stop Probe × S → Result Stop Verdict × S
  concluded (err e, s) = (err e, s)
  concluded (ok p, s) = seen p.first_seen_at p.samples s

  -- The loop, and what follows it.
  unfoldable pub watched : ℕ → ℕ → S → Result Stop Verdict × S
  unfolding probe
  watched fuel product_id s =
      let (now, s') = tools.monotonic s in
      concluded (
        poll_until tools (probe product_id) fuel (now + settings.timeout)
          (record { samples = 0; first_seen_at = none }) s')

  abbrev pub identified : ℕ → Option ℕ → S → Result Stop Verdict × S
  identified fuel none s = (err raised_key, s)
  identified fuel (some product_id) s = watched fuel product_id s

  abbrev pub created : ℕ → Answer × S → Result Stop Verdict × S
  created fuel (http_error, s) = (err raised_http, s)
  created fuel (response code id, s) =
      let rest = identified fuel id s in if is_2xx code then rest else (err raised_http, s)

  unfoldable pub cmd_lag : ℕ → S → Result Stop Verdict × S
  unfolding watched
  cmd_lag fuel s = created fuel (stack.post_product s)
