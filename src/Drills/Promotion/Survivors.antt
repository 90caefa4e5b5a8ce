-- ===== src/Drills/Promotion/Survivors.antt =====
-- What the report of `cmd_promote_local` of loadtest/ha_experiment.py counts.
use commerceops_ai_platform.Base.{ℕ, ◌+◌, ◌≡◌, refl, List, [], ◌∷◌, length, if◌then◌else◌, arith}
use commerceops_ai_platform.Drills.{Tools}
use commerceops_ai_platform.Drills.Promotion.{Stack, Settings, is_found, survived, report}

module _ {S : Type 0} (tools : Tools S) (stack : Stack S) (settings : Settings) where
  -- The orders that the standby does not show, asked one after another.
  unfoldable pub not_found : List ℕ → S → List ℕ
  not_found [] s = []
  not_found (id ∷ ids) s =
      let (found, s') = stack.find_on_replica id s in
      let rest = not_found ids s' in if is_found tools stack settings found then rest else id ∷ rest

  survived-not_found :
      (ids : List ℕ) (s : S)
      → (survived tools stack settings ids s).0 + length (not_found ids s) ≡ length ids
  unfolding survived not_found
  survived-not_found [] s = refl
  survived-not_found (id ∷ ids) s =
      ground (arith, survived-not_found ids (stack.find_on_replica id s).1)

  -- The orders that the report counts as lost are those that the standby does not show, and those
  -- that survived are the others.
  pub report_lem :
      (confirmed : List ℕ) (s : S)
      → let r = (report tools stack settings confirmed s).0 in
        (r.lost ≡ length (not_found confirmed s)) × (r.survived + r.lost ≡ length r.confirmed)
  unfolding report
  report_lem confirmed s =
      (omega (arith, survived-not_found confirmed s), omega (arith, survived-not_found confirmed s))
