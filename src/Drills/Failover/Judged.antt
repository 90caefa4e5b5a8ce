-- ===== src/Drills/Failover/Judged.antt =====
-- What the whole of `cmd_failover_aws` of loadtest/ha_experiment.py says of the orders that it placed.
use commerceops_ai_platform.Base.{
  ℕ, ◌+◌, ◌≡◌, refl, sym, subst, ◌∙◌, ◌⊎◌, ◌↔◌, inl, inr, Bool-cases, Option, none, some, List, [],
  ◌∷◌, ◌==◌, Result, ok, err,
}
use commerceops_ai_platform.Drills.{
  Answer, response, http_error, Stop, Tools, seed, with_customer, with_product,
}
use commerceops_ai_platform.Drills.Failover.{
  Stack, Settings, Watch, exit_with, rebooted, seeded, watching, verdict, cmd_failover_aws, missing,
  concluded, rto_of,
}
use commerceops_ai_platform.Drills.Failover.Verdict.{Within, AllRead, verdict-zero}
use commerceops_ai_platform.Drills.Failover.Log.{
  Log, first_failure, first_recovery, placed_ids, IsObserved,
}
use commerceops_ai_platform.Drills.Failover.Observed.{Matches, Keeps, poll_until-Matches}

module _ {S : Type 0} (tools : Tools S) (stack : Stack S) (settings : Settings) (time : S → ℕ)
    (seen : S → Log) (laws : IsObserved tools stack time seen) where
  abbrev Matched : Watch → Log → Type 0
  Matched = Matches tools stack settings time seen laws

  missing-seen : (ids : List ℕ) (s : S) → seen (missing tools stack settings ids s).1 ≡ seen s
  unfolding missing
  missing-seen [] s = refl
  missing-seen (id ∷ ids) s = missing-seen ids (stack.get_order id s).1 ∙ laws.seen-get_order id s

  verdict-seen : (w : Watch) (s : S) → seen (verdict tools stack settings w s).1 ≡ seen s
  unfolding verdict
  verdict-seen w s = go w.downtime_started w.downtime_ended
    where
      go :
          (started ended : Option ℕ)
          → seen
              (concluded tools stack settings w.confirmed
                (rto_of tools stack settings started ended s)).1
            ≡ seen s
      go none ended = missing-seen w.confirmed s
      go (some a) none = laws.seen-monotonic s
      go (some a) (some b) = missing-seen w.confirmed s

  -- The first failure was followed by an order that was placed, within the budget, or there was none;
  -- and each order that was placed answers with 200 when it is read back from `end` on.
  abbrev pub Passed : Log → S → Type 0
  Passed log end =
      Within tools stack settings (first_failure log) (first_recovery log)
      × AllRead tools stack settings (placed_ids log) end

  -- An exit status: 1 before any order was sent, or 0 exactly for a pass.
  abbrev pub Judged : Result Stop ℕ × S → Type 0
  Judged (err e, s) = Unit {0}
  Judged (ok code, s) =
      ((code ≡ 1) × (seen s ≡ []))
      ⊎ ((end : S) × ((seen s ≡ seen end) × ((code ≡ 0) ↔ Passed (seen s) end)))

  exit_with-Judged :
      (out : Result Stop Watch × S)
      → Keeps tools stack settings time seen laws out
      → Judged (exit_with tools stack settings out)
  exit_with-Judged (err e, s) v = tt
  exit_with-Judged (ok w, s) v =
      let same = verdict-seen w s in
      inr (
        s,
        (
          same,
          subst (λ log. ((verdict tools stack settings w s).0 ≡ 0) ↔ Passed log s) (sym same)
              (subst
                (λ ids. ((verdict tools stack settings w s).0 ≡ 0) ↔ (
                  Within tools stack settings (first_failure (seen s)) (first_recovery (seen s))
                  × AllRead tools stack settings ids s))
                v.confirmed
                (subst
                  (λ t. ((verdict tools stack settings w s).0 ≡ 0) ↔ (
                    Within tools stack settings t (first_recovery (seen s))
                    × AllRead tools stack settings w.confirmed s))
                  v.started
                  (subst
                    (λ t. ((verdict tools stack settings w s).0 ≡ 0) ↔ (
                      Within tools stack settings w.downtime_started t
                      × AllRead tools stack settings w.confirmed s))
                    v.ended (verdict-zero tools stack settings w s)))),
        ),
      )

  watching-Matches : Matched (watching tools stack settings) []
  unfolding placed_ids first_failure first_recovery
  watching-Matches = record { confirmed = refl; started = refl; ended = refl }

  rebooted-Judged :
      (fuel customer_id product_id code : ℕ) (s : S)
      → seen s ≡ []
      → Judged (rebooted tools stack settings fuel customer_id product_id (code, s))
  rebooted-Judged fuel customer_id product_id code s fresh = elim (Bool-cases (code == 0)) [
    | inr refused ↦ rw refused (inl (refl, fresh))
    | inl accepted ↦ rw accepted (
        exit_with-Judged _ (
          poll_until-Matches tools stack settings time seen laws customer_id product_id fuel
            ((tools.monotonic s).0 + settings.timeout) (watching tools stack settings)
            (tools.monotonic s).1
            (subst (Matched (watching tools stack settings)) (sym (laws.seen-monotonic s ∙ fresh))
              watching-Matches)))
  ]

  -- Where the clock gives the time, and `seen` is what the requests for orders were answered and
  -- when: an exit status of the drill, begun before any order, is 1 with no order sent, or it is 0
  -- exactly where no order failed, or one was placed after the first that failed and within the
  -- budget of it, and every order that was placed answers with 200 when they are read back one
  -- after another, with no order sent any more.
  pub cmd_failover_aws-Judged :
      (fuel : ℕ) (s : S) → seen s ≡ [] → Judged (cmd_failover_aws tools stack settings fuel s)
  unfolding cmd_failover_aws seed
  cmd_failover_aws-Judged fuel s fresh =
      seeding (tools.post_customer s).0 (tools.post_customer s).1
        (laws.seen-post_customer s ∙ fresh)
    where
      product :
          (customer : Option ℕ) (answer : Answer) (s' : S)
          → seen s' ≡ []
          → Judged (seeded tools stack settings fuel (with_product tools customer (answer, s')))
      product customer http_error s' h = tt
      product none (response code id) s' h = tt
      product (some n) (response code none) s' h = tt
      product (some n) (response code (some m)) s' h =
          rebooted-Judged fuel n m (stack.reboot s').0 (stack.reboot s').1 (laws.seen-reboot s' ∙ h)

      seeding :
          (answer : Answer) (s' : S)
          → seen s' ≡ []
          → Judged (seeded tools stack settings fuel (with_customer tools (answer, s')))
      seeding http_error s' h = tt
      seeding (response code customer) s' h =
          product customer (tools.post_product s').0 (tools.post_product s').1
            (laws.seen-post_product s' ∙ h)
