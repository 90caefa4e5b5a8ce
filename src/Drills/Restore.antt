-- ===== src/Drills/Restore.antt =====
-- `cmd_restore_pitr` of loadtest/ha_experiment.py: a restore to a new instance, timed until it is available.

pub mod Dry
use commerceops_ai_platform.Base.{
  ℕ, ◌+◌, ◌-◌, ◌==◌, Bool, true, false, Option, none, some, String, str_eq, List, [], ◌∷◌,
  if◌then◌else◌, Result, ok, err,
}
use commerceops_ai_platform.Drills.{Stop, Tools}
use commerceops_ai_platform.Drills.Polling.{Round, again, break_with, poll_until}

-- The exit statuses of the `aws rds` commands, and the words that the last of them prints.
pub record Stack (S : Type 0) : Type 0 where
  pub describe : S → ℕ × S
  pub restore : (target_id : String) → S → ℕ × S
  pub target_status : (target_id : String) → S → List String × S

-- `args`; the name of the target is settled, as `args.target_identifier` or by the time.
pub record Settings : Type 0 where
  pub confirm : Bool
  pub target_id : String
  pub timeout : ℕ

-- The exit status, and how long the restore took where it is available.
pub record Verdict : Type 0 where
  pub code : ℕ
  pub elapsed : Option ℕ

module _ {S : Type 0} (tools : Tools S) (stack : Stack S) (settings : Settings) where
  -- `parts and parts[0] == "available"`
  abbrev pub is_available : List String → Bool
  is_available [] = false
  is_available (part ∷ parts) = str_eq part "available"

  abbrev pub described : ℕ → List String × S → Result Stop (Round (Option ℕ)) × S
  described started (parts, s) =
      let (now, s') = tools.monotonic s in
      if is_available parts
      then (ok (break_with (some (now - started))), s')
      else (ok (again none), tools.sleep 30000 s)

  -- The body of the loop, which keeps `elapsed`.
  unfoldable pub await : ℕ → Option ℕ → S → Result Stop (Round (Option ℕ)) × S
  await started elapsed s = described started (stack.target_status settings.target_id s)

  abbrev pub concluded : Result Stop (Option ℕ) × S → Result Stop Verdict × S
  concluded (err e, s) = (err e, s)
  concluded (ok none, s) = (ok (record { code = 1; elapsed = none }), s)
  concluded (ok (some elapsed), s) = (ok (record { code = 0; elapsed = some elapsed }), s)

  abbrev pub restored : ℕ → ℕ → ℕ × S → Result Stop Verdict × S
  restored fuel started (code, s) =
      let (now, s') = tools.monotonic s in
      let done =
        concluded (poll_until tools (await started) fuel (now + settings.timeout) none s') in
      if code == 0 then done else (ok (record { code = 1; elapsed = none }), s)

  abbrev pub planned : ℕ → S → Result Stop Verdict × S
  planned fuel s =
      let (started, s') = tools.monotonic s in
      let done = restored fuel started (stack.restore settings.target_id s') in
      if settings.confirm then done else (ok (record { code = 0; elapsed = none }), s)

  abbrev pub with_instance : ℕ → ℕ × S → Result Stop Verdict × S
  with_instance fuel (code, s) =
      let rest = planned fuel s in
      if code == 0 then rest else (ok (record { code = 1; elapsed = none }), s)

  unfoldable pub cmd_restore_pitr : ℕ → S → Result Stop Verdict × S
  unfolding await
  cmd_restore_pitr fuel s = with_instance fuel (stack.describe s)
