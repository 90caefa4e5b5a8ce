-- ===== src/Drills/Restore/Dry.antt =====
-- `cmd_restore_pitr` of loadtest/ha_experiment.py: its dry run, and that it ends.
use commerceops_ai_platform.Base.{
  ℕ, ◌+◌, ◌*◌, ◌≤◌, ◌≡◌, ◌≢◌, refl, inl, inr, false, Bool-cases, Option, none, some, String, List,
  ◌==◌, Result, ok, err, arith,
}
use commerceops_ai_platform.Drills.{Stop, out_of_fuel, Tools}
use commerceops_ai_platform.Drills.Polling.{IsClock, Takes, poll_until_ends}
use commerceops_ai_platform.Drills.Restore.{
  Stack, Settings, is_available, described, await, concluded, restored, planned, with_instance,
  cmd_restore_pitr,
}

module _ {S : Type 0} (tools : Tools S) (stack : Stack S) (settings : Settings) where
  -- Without `--confirm` the drill only describes the instance: nothing is restored.
  cmd_restore_pitr_dry :
      (fuel : ℕ) (s : S)
      → settings.confirm ≡ false
      → (cmd_restore_pitr tools stack settings fuel s).1 ≡ (stack.describe s).1
  unfolding cmd_restore_pitr
  cmd_restore_pitr_dry fuel s dry = elim (Bool-cases ((stack.describe s).0 == 0)) [
    | inl there ↦ rw (there, dry) refl
    | inr missing ↦ rw missing refl
  ]

  module _ (time : S → ℕ) (clock : IsClock tools time) where
    -- A query takes no time off the clock.
    pub record IsTimed : Type 0 where
      pub time-target_status :
          (target_id : String) (s : S) → time s ≤ time (stack.target_status target_id s).1

    module _ (laws : IsTimed) where
      described-Takes :
          (started : ℕ) (s : S) (o : List String × S)
          → time s ≤ time o.1
          → Takes tools
              (await tools stack settings started)
              time
              clock
              30000
              s
              (described tools stack settings started o)
      described-Takes started s (parts, s') h =
          elim (Bool-cases (is_available tools stack settings parts)) [
            | inl over ↦ rw over tt
            | inr waits ↦ rw waits (omega (arith, h, clock.time-sleep 30000 s'))
          ]

      concluded_ends :
          (out : Result Stop (Option ℕ) × S)
          → out.0 ≢ err out_of_fuel
          → (concluded tools stack settings out).0 ≢ err out_of_fuel
      concluded_ends (err x, s) h = λ e. h (ground (arith, e))
      concluded_ends (ok none, s) h = λ e. ground (arith, e)
      concluded_ends (ok (some n), s) h = λ e. ground (arith, e)

      -- The drill ends by an exit status where the clock does not go back, a query takes no time off
      -- it, and the fuel makes up the timeout at thirty seconds a round.
      cmd_restore_pitr_ends :
          (fuel : ℕ) (s : S)
          → settings.timeout ≤ fuel * 30000
          → (cmd_restore_pitr tools stack settings fuel s).0 ≢ err out_of_fuel
      unfolding cmd_restore_pitr await
      cmd_restore_pitr_ends fuel s enough = described_as (stack.describe s)
        where
          restoring :
              (started : ℕ) (o : ℕ × S)
              → (restored tools stack settings fuel started o).0 ≢ err out_of_fuel
          restoring started (code, s') = elim (Bool-cases (code == 0)) [
            | inr failed ↦ rw failed (λ e. ground (arith, e))
            | inl done ↦ rw done (
                concluded_ends _ (
                  poll_until_ends tools (await tools stack settings started) time clock 30000
                    (λ elapsed s''.
                      described-Takes started s'' (stack.target_status settings.target_id s'')
                        (laws.time-target_status settings.target_id s''))
                    fuel ((tools.monotonic s').0 + settings.timeout) none (tools.monotonic s').1
                    (omega (arith, enough, clock.reads s', clock.time-monotonic s'))))
          ]

          planning : (s' : S) → (planned tools stack settings fuel s').0 ≢ err out_of_fuel
          planning s' = elim (Bool-cases settings.confirm) [
            | inr dry ↦ rw dry (λ e. ground (arith, e))
            | inl confirmed ↦ rw confirmed (
                restoring (tools.monotonic s').0
                  (stack.restore settings.target_id (tools.monotonic s').1))
          ]

          described_as :
              (o : ℕ × S) → (with_instance tools stack settings fuel o).0 ≢ err out_of_fuel
          described_as (code, s') = elim (Bool-cases (code == 0)) [
            | inr missing ↦ rw missing (λ e. ground (arith, e))
            | inl there ↦ rw there (planning s')
          ]
