-- ===== src/Drills/Failover/Observed.antt =====
-- The variables of the loop of `cmd_failover_aws` of loadtest/ha_experiment.py, by what was seen.
use commerceops_ai_platform.Base.{
  ℕ, zero, suc, ◌≡◌, refl, sym, ap, subst, ◌∙◌, inl, inr, true, false, Bool-cases, Option, none,
  some, [], ◌∷◌, ◌++◌, ltb, Result, ok, err,
}
use commerceops_ai_platform.Drills.{Answer, response, http_error, Stop, Tools, is_2xx}
use commerceops_ai_platform.Drills.Polling.{Round, again, break_with, continued, poll_until}
use commerceops_ai_platform.Drills.Failover.{
  Stack, Settings, Watch, is_200, watch, with_health, with_order, confirmed_as, down, up, returned,
  rested, is_over,
}
use commerceops_ai_platform.Drills.Failover.Log.{
  Log, is_placed, earliest, first_failure, first_recovery, placed_ids, IsObserved,
}

module _ {S : Type 0} (tools : Tools S) (stack : Stack S) (settings : Settings) (time : S → ℕ)
    (seen : S → Log) (laws : IsObserved tools stack time seen) where
  -- The variables of the loop say what was seen.
  pub record Matches (w : Watch) (log : Log) : Type 0 where
    pub confirmed : w.confirmed ≡ placed_ids log
    pub started : w.downtime_started ≡ first_failure log
    pub ended : w.downtime_ended ≡ first_recovery log

  abbrev pub Keeps : Result Stop Watch × S → Type 0
  Keeps (ok w, s) = Matches w (seen s)
  Keeps (err e, s) = Unit {0}

  with_health-Matches :
      (w : Watch) (answer : Answer) (s : S) (log : Log)
      → Matches w log
      → Matches (with_health tools stack settings w (answer, s)).0 log
  with_health-Matches w answer s log v = elim (Bool-cases (is_200 answer)) [
    | inl up ↦ rw up v
    | inr down ↦ rw down (record { confirmed = v.confirmed; started = v.started; ended = v.ended })
  ]

  earliest-none : (o : Option ℕ) → earliest o none ≡ o
  earliest-none none = refl
  earliest-none (some a) = refl

  down-Matches :
      (started : Option ℕ) (w : Watch) (answer : Answer) (s : S) (log : Log)
      → w.downtime_started ≡ started
      → is_placed answer ≡ false
      → Matches w log
      → seen s ≡ (answer, time s) ∷ log
      → Keeps (returned tools stack settings (down tools stack settings started w s))
  unfolding placed_ids first_failure first_recovery
  down-Matches (some a) w answer s log e lost v h = subst (Matches w) (sym h) (record {
    confirmed = v.confirmed ∙ rw lost refl;
    started = v.started ∙ rw (sym v.started ∙ e) refl;
    ended = v.ended ∙ sym (rw lost (earliest-none (first_recovery log)));
  })
  down-Matches none w answer s log e lost v h =
      subst (Matches (down tools stack settings none w s).0) (sym (laws.seen-monotonic s ∙ h))
        (record {
          confirmed = v.confirmed ∙ rw lost refl;
          started = ap (λ t. some t) (laws.reads s) ∙ rw (sym v.started ∙ e) (rw lost refl);
          ended = v.ended ∙ sym (rw lost (earliest-none (first_recovery log)));
        })

  up-Matches :
      (started ended : Option ℕ) (w : Watch) (code id : ℕ) (s : S) (log : Log)
      → w.downtime_started ≡ started
      → w.downtime_ended ≡ ended
      → is_2xx code ≡ true
      → Matches w log
      → seen s ≡ (response code (some id), time s) ∷ log
      → Keeps (
          returned tools stack settings (
            up tools stack settings started ended
              (record w { confirmed = w.confirmed ++ id ∷ [] })
              s))
  unfolding placed_ids first_failure first_recovery
  up-Matches none ended w code id s log e e' placed v h =
      subst (Matches (record w { confirmed = w.confirmed ++ id ∷ [] })) (sym h) (record {
        confirmed = ap (λ ids. ids ++ id ∷ []) v.confirmed ∙ rw placed refl;
        started = v.started ∙ sym (rw placed (earliest-none (first_failure log)));
        ended =
            v.ended ∙ sym (rw placed (rw (sym v.started ∙ e) (earliest-none (first_recovery log))));
      })
  up-Matches (some a) (some b) w code id s log e e' placed v h =
      subst (Matches (record w { confirmed = w.confirmed ++ id ∷ [] })) (sym h) (record {
        confirmed = ap (λ ids. ids ++ id ∷ []) v.confirmed ∙ rw placed refl;
        started = v.started ∙ sym (rw placed (earliest-none (first_failure log)));
        ended = v.ended ∙ rw (sym v.ended ∙ e') refl;
      })
  up-Matches (some a) none w code id s log e e' placed v h =
      subst
        (Matches
          (up tools stack settings (some a) none (record w { confirmed = w.confirmed ++ id ∷ [] })
            s).0)
        (sym (laws.seen-monotonic s ∙ h))
        (record {
          confirmed = ap (λ ids. ids ++ id ∷ []) v.confirmed ∙ rw placed refl;
          started = v.started ∙ sym (rw placed (earliest-none (first_failure log)));
          ended =
              ap (λ t. some t) (laws.reads s)
              ∙ rw (sym v.ended ∙ e') (rw placed (rw (sym v.started ∙ e) refl));
        })

  with_order-Matches :
      (w : Watch) (answer : Answer) (s : S) (log : Log)
      → Matches w log
      → seen s ≡ (answer, time s) ∷ log
      → Keeps (with_order tools stack settings w (answer, s))
  with_order-Matches w http_error s log v h =
      down-Matches w.downtime_started w http_error s log refl refl v h
  with_order-Matches w (response code id) s log v h = elim (Bool-cases (is_2xx code)) [
    | inr lost ↦ rw lost (down-Matches w.downtime_started w (response code id) s log refl lost v h)
    | inl placed ↦ rw placed (confirming placed id h)
  ]
    where
      confirming :
          is_2xx code ≡ true
          → (id : Option ℕ) → seen s ≡ (response code id, time s) ∷ log
          → Keeps (confirmed_as tools stack settings id w s)
      confirming placed none k = tt
      confirming placed (some n) k =
          up-Matches w.downtime_started w.downtime_ended w code n s log refl refl placed v k

  abbrev KeepsRound : Result Stop (Round Watch) × S → Type 0
  KeepsRound (ok (again w), s) = Matches w (seen s)
  KeepsRound (ok (break_with w), s) = Matches w (seen s)
  KeepsRound (err e, s) = Unit {0}

  rested-Matches :
      (out : Result Stop Watch × S) → Keeps out → KeepsRound (rested tools stack settings out)
  rested-Matches (err e, s) v = tt
  rested-Matches (ok w, s) v = elim (Bool-cases (is_over tools stack settings w)) [
    | inl over ↦ rw over v
    | inr goes_on ↦
        rw goes_on (subst (Matches w) (sym (laws.seen-sleep settings.poll_interval s)) v)
  ]

  watch-Matches :
      (customer_id product_id : ℕ) (w : Watch) (s : S)
      → Matches w (seen s)
      → KeepsRound (watch tools stack settings customer_id product_id w s)
  unfolding watch
  watch-Matches customer_id product_id w s v =
      let (health, s') = stack.get_health s in
      rested-Matches _ (
        with_order-Matches (with_health tools stack settings w (stack.get_health s)).0
          (stack.post_order customer_id product_id s').0
          (stack.post_order customer_id product_id s').1 (seen s)
          (with_health-Matches w health s' (seen s) v)
          (laws.seen-post_order customer_id product_id s'
            ∙ ap
                (λ (log : Log).
                  (
                    (stack.post_order customer_id product_id s').0,
                    time (stack.post_order customer_id product_id s').1,
                  )
                  ∷ log)
                (laws.seen-get_health s)))

  pub poll_until-Matches :
      (customer_id product_id fuel deadline : ℕ) (w : Watch) (s : S)
      → Matches w (seen s)
      → Keeps
          (poll_until tools (watch tools stack settings customer_id product_id) fuel deadline w s)
  unfolding poll_until
  poll_until-Matches customer_id product_id zero deadline w s v =
      elim (Bool-cases (ltb (tools.monotonic s).0 deadline)) [
        | inl early ↦ rw early tt
        | inr over ↦ rw over (subst (Matches w) (sym (laws.seen-monotonic s)) v)
      ]
  poll_until-Matches customer_id product_id (suc n) deadline w s v =
      elim (Bool-cases (ltb (tools.monotonic s).0 deadline)) [
        | inr over ↦ rw over (subst (Matches w) (sym (laws.seen-monotonic s)) v)
        | inl early ↦ rw early (
            going (λ w' s' k. poll_until-Matches customer_id product_id n deadline w' s' k)
              (watch tools stack settings customer_id product_id w (tools.monotonic s).1)
              (watch-Matches customer_id product_id w (tools.monotonic s).1
                (subst (Matches w) (sym (laws.seen-monotonic s)) v)))
      ]
    where
      body : Watch → S → Result Stop (Round Watch) × S
      body = watch tools stack settings customer_id product_id

      going :
          ((w' : Watch) (s' : S)
            → Matches w' (seen s')
            → Keeps (poll_until tools body n deadline w' s'))
          → (out : Result Stop (Round Watch) × S) → KeepsRound out
          → Keeps (continued tools body (poll_until tools body n deadline) out)
      going ih (ok (again w'), s') k = ih w' s' k
      going ih (ok (break_with w'), s') k = k
      going ih (err e, s') k = tt
