-- ===== src/Health/Probes.antt =====
-- A probe does not influence what it reports.
use commerceops_ai_platform.Base.{⊤, ℕ, ◌≤◌, ◌≡◌, refl}
use commerceops_ai_platform.Reliability.Breaker.{before_call}
use commerceops_ai_platform.Reliability.Breaker.Observed.{before_call-read_state}
use commerceops_ai_platform.Reliability.Protected.{Guarded}
use commerceops_ai_platform.Payment.{Reply}
use commerceops_ai_platform.Health.{probe}

module _ {S : Type 0} (clock : S → ℕ) (get : S → Reply ⊤ × S) where
  -- A probe leaves the bulkhead as it is, asks the dependency once, and no later call can tell that
  -- the circuit was probed: it is admitted or refused as without the probe, and leaves the breaker
  -- in the same state.
  pub probe_harmless :
      (g : Guarded S) (later : ℕ)
      → clock g.1.1 ≤ later
      → let (_, (b', (c', s'))) = probe clock get g in
        (b' ≡ g.0) × (s' ≡ (get g.1.1).1) × (before_call c' later ≡ before_call g.1.0 later)
  unfolding probe
  probe_harmless (b, (c, s)) later h = (refl, refl, before_call-read_state c (clock s) later h)
