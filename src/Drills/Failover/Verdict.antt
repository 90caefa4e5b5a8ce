-- ===== src/Drills/Failover/Verdict.antt =====
-- What the exit status of `cmd_failover_aws` of loadtest/ha_experiment.py says of what its loop left.
use commerceops_ai_platform.Base.{
  ℕ, ◌+◌, ◌-◌, ◌≤◌, ◌≡◌, refl, ◌↔◌, inl, inr, true, Bool-cases, Option, none, some, List, [], ◌∷◌,
  arith,
}
use commerceops_ai_platform.Drills.{Tools}
use commerceops_ai_platform.Drills.Failover.{
  Stack, Settings, Watch, is_200, missing, verdict, concluded, checked, rto_of,
}

module _ {S : Type 0} (tools : Tools S) (stack : Stack S) (settings : Settings) where
  -- No downtime was seen, or it ended within the budget.
  abbrev pub Within : Option ℕ → Option ℕ → Type 0
  Within none ended = Unit {0}
  Within (some started) none = ⊥
  Within (some started) (some ended) = ended ≤ started + settings.rto_budget

  -- Each of the orders answers with 200 when it is read back, one after another.
  abbrev pub AllRead : List ℕ → S → Type 0
  AllRead [] s = Unit {0}
  AllRead (id ∷ ids) s =
      (is_200 (stack.get_order id s).0 ≡ true) × AllRead ids (stack.get_order id s).1

  missing-AllRead :
      (ids : List ℕ) (s : S) → ((missing tools stack settings ids s).0 ≡ 0) ↔ AllRead ids s
  unfolding missing
  missing-AllRead [] s = (λ h. tt, λ h. refl)
  missing-AllRead (id ∷ ids) s = elim (Bool-cases (is_200 (stack.get_order id s).0)) [
    | inl there ↦ rw there (
      λ h. (refl, (missing-AllRead ids (stack.get_order id s).1).0 h),
      λ h. (missing-AllRead ids (stack.get_order id s).1).1 h.1,
    )
    | inr lost ↦ rw lost (λ h. absurd (ground (arith, h)), λ h. absurd (ground (arith, h.0)))
  ]

  checked_iff :
      (rto : ℕ) (ids : List ℕ) (s : S)
      → ((checked tools stack settings rto (missing tools stack settings ids s)).0 ≡ 0)
        ↔ ((rto ≤ settings.rto_budget) × AllRead ids s)
  checked_iff rto ids s = (
    λ h. (ground (arith, h), (missing-AllRead ids s).0 (ground (arith, h))),
    λ (within, read). ground (arith, within, (missing-AllRead ids s).1 read),
  )

  -- What follows the loop gives 0 exactly when the loop noted no downtime, or one that ended within
  -- the budget, and every confirmed order answers with 200 when it is read back.
  pub verdict-zero :
      (w : Watch) (s : S)
      → ((verdict tools stack settings w s).0 ≡ 0)
        ↔ (Within w.downtime_started w.downtime_ended × AllRead w.confirmed s)
  unfolding verdict
  verdict-zero w s = go w.downtime_started w.downtime_ended
    where
      go :
          (started ended : Option ℕ)
          → ((concluded tools stack settings w.confirmed
                (rto_of tools stack settings started ended s)).0
              ≡ 0)
            ↔ (Within started ended × AllRead w.confirmed s)
      go none ended = (
        λ h. (tt, ((checked_iff 0 w.confirmed s).0 h).1),
        λ h. (checked_iff 0 w.confirmed s).1 (omega arith, h.1),
      )
      go (some a) none = (λ h. absurd (ground (arith, h)), λ h. absurd h.0)
      go (some a) (some b) = (
        λ h. (
          omega (arith, ((checked_iff (b - a) w.confirmed s).0 h).0),
          ((checked_iff (b - a) w.confirmed s).0 h).1,
        ),
        λ h. (checked_iff (b - a) w.confirmed s).1 (omega (arith, h.0), h.1),
      )
