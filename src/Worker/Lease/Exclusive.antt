-- ===== src/Worker/Lease/Exclusive.antt =====
-- While Redis answers and the lease stands, one delivery of an event at most is in `process_event`
-- of app/worker.py.
use commerceops_ai_platform.Base.{
  ⊤, ℕ, ◌==◌, ◌≡◌, refl, sym, subst, ◌∙◌, ◌⊎◌, inl, inr, Bool, true, false, Bool-cases, String,
  List, [], ◌∷◌, contains, Result, ok, err, arith,
}
use commerceops_ai_platform.Reliability.{Failure}
use commerceops_ai_platform.Reliability.Retry.{Timing, retry_with_backoff}
use commerceops_ai_platform.Cache.{Redis}
use commerceops_ai_platform.Cache.Lasting.{IsLasting}
use commerceops_ai_platform.Idempotency.{EventKey, lease, Store, acquire_lease}
use commerceops_ai_platform.Idempotency.Claims.{
  acquire_lease-Decided, completed_handlers-stands, record_handler_done-stands,
}
use commerceops_ai_platform.Worker.{Handler, Config}
use commerceops_ai_platform.Worker.Race.{
  Phase, starting, visiting, recording, finished, Shared, judged, advance, set,
}
use commerceops_ai_platform.Worker.Lease.{
  Turn, waiting, skipped, serving, left, Deliveries, answered, concluded, take_turn, step, run,
  begun,
}

unfoldable pub is_serving : {X P E : Type 0} → Turn X P E → Bool
is_serving (serving p) = true
is_serving _ = false

module _ {C X P E : Type 0} (r : Redis C EventKey (List String)) (timing : Timing X)
    (config : Config) (handlers : List (Handler X P E)) (event_id event_type : String) (payload : P)
    (stands : C → Type 0) (lasting : IsLasting r (lease event_id) stands) where
  abbrev Stands : Shared C X → Type 0
  Stands w = stands w.store.cache

  judged-stands :
      (h : Handler X P E) (d : List String) (rest : List (Handler X P E)) (o : List String)
      (w : Shared C X) (out : Result (Failure E) ⊤ × X)
      → Stands w
      → Stands (judged r timing config handlers event_id event_type payload h d rest o w out).1
  judged-stands h d rest o w (ok a, x) v = v
  judged-stands h d rest o w (err e, x) v = v

  advance-stands :
      (p : Phase X P E) (w : Shared C X)
      → Stands w
      → Stands (advance r timing config handlers event_id event_type payload p w).1
  unfolding advance
  advance-stands starting w v =
      completed_handlers-stands r config.idempotency event_id stands lasting w.store v
  advance-stands (visiting d [] o) w v = v
  advance-stands (visiting d (h ∷ rest) o) w v = elim (Bool-cases (contains h.name d)) [
    | inl old ↦ rw old v
    | inr new ↦ rw new (
        judged-stands h d rest o w
          (retry_with_backoff timing config.retry (λ e. true) (h.run event_type payload) w.outside)
          v)
  ]
  advance-stands (recording h d rest o) w v =
      record_handler_done-stands r config.idempotency event_id stands lasting event_type h.name
        w.store v
  advance-stands (finished o) w v = v

  -- What a turn of one delivery does to the lease.
  record Guarded (p : Turn X P E) (w : Shared C X) (out : Turn X P E × Shared C X) : Type 0 where
    entered : is_serving out.0 ≡ true → (is_serving p ≡ true) ⊎ ¬ Stands w
    claimed : is_serving out.0 ≡ true → (is_serving p ≡ true → Stands w) → Stands out.1
    untouched : is_serving p ≡ false → Stands w → Stands out.1

  onward-Guarded :
      (p : Phase X P E) (w : Shared C X) (out : Phase X P E × Shared C X)
      → (Stands w → Stands out.1)
      → Guarded (serving p) w (serving out.0, out.1)
  unfolding is_serving
  onward-Guarded p w out keeps = record {
    entered = λ e. inl refl;
    claimed = λ e v. keeps (v refl);
    untouched = λ e v. ground arith;
  }

  answered-Guarded :
      (w : Shared C X) (out : Bool × Store C)
      → (((out.0 ≡ true) × ¬ Stands w) ⊎ ((out.0 ≡ false) × Stands w))
      → stands out.1.cache
      → Guarded waiting w (answered r timing config handlers event_id event_type payload out w)
  unfolding is_serving
  answered-Guarded w (true, s) (inl (e, free)) v = record {
    entered = λ e. inr free;
    claimed = λ e h. v;
    untouched = λ e h. v;
  }
  answered-Guarded w (true, s) (inr (e, h)) v = ground arith
  answered-Guarded w (false, s) d v = record {
    entered = λ e. ground arith;
    claimed = λ e h. ground arith;
    untouched = λ e h. v;
  }

  concluded-Guarded :
      (o : List String) (w : Shared C X)
      → Guarded
          (serving (finished o))
          w
          (concluded r timing config handlers event_id event_type payload o w)
  unfolding is_serving
  concluded-Guarded [] w = record {
    entered = λ e. ground arith;
    claimed = λ e h. ground arith;
    untouched = λ e h. h;
  }
  concluded-Guarded (name ∷ names) w = record {
    entered = λ e. ground arith;
    claimed = λ e h. ground arith;
    untouched = λ e h. ground arith;
  }

  take_turn-Guarded :
      (p : Turn X P E) (w : Shared C X)
      → Guarded p w (take_turn r timing config handlers event_id event_type payload p w)
  unfolding take_turn is_serving
  take_turn-Guarded waiting w =
      let d = acquire_lease-Decided r config.idempotency event_id stands lasting w.store in
      answered-Guarded w (acquire_lease r config.idempotency event_id w.store) d.0 d.1
  take_turn-Guarded skipped w = record {
    entered = λ e. ground arith;
    claimed = λ e h. ground arith;
    untouched = λ e h. h;
  }
  take_turn-Guarded (serving (finished o)) w = concluded-Guarded o w
  take_turn-Guarded (serving starting) w = onward-Guarded _ w _ (advance-stands _ w)
  take_turn-Guarded (serving (visiting d rest o)) w = onward-Guarded _ w _ (advance-stands _ w)
  take_turn-Guarded (serving (recording h d rest o)) w = onward-Guarded _ w _ (advance-stands _ w)
  take_turn-Guarded (left o) w = record {
    entered = λ e. ground arith;
    claimed = λ e h. ground arith;
    untouched = λ e h. h;
  }

  record IsExclusive (t : Deliveries C X P E) : Type 0 where
    alone : (i j : ℕ) → is_serving (t.turn i) ≡ true → is_serving (t.turn j) ≡ true → i ≡ j
    held : (i : ℕ) → is_serving (t.turn i) ≡ true → Stands t.shared

  serving-set :
      (i j : ℕ) (p : Turn X P E) (turn : ℕ → Turn X P E)
      → is_serving (set i p turn j) ≡ true
      → ((j ≡ i) × (is_serving p ≡ true)) ⊎ (((j == i) ≡ false) × (is_serving (turn j) ≡ true))
  unfolding set
  serving-set i j p turn = elim (Bool-cases (j == i)) [
    | inl same ↦ rw same (λ h. inl (ground arith, h))
    | inr other ↦ rw other (λ h. inr (refl, h))
  ]

  -- The delivery that steps serves afterwards only where no other serves.
  apart :
      (i j : ℕ) (t : Deliveries C X P E) (out : Turn X P E × Shared C X)
      → IsExclusive t
      → Guarded (t.turn i) t.shared out
      → is_serving out.0 ≡ true
      → (j == i) ≡ false
      → ¬ (is_serving (t.turn j) ≡ true)
  apart i j t out v g h other served = elim (g.entered h) [
    | inl before ↦ (let same = v.alone j i served before in ground arith)
    | inr free ↦ free (v.held j served)
  ]

  step-IsExclusive :
      (i : ℕ) (t : Deliveries C X P E)
      → IsExclusive t
      → IsExclusive (step r timing config handlers event_id event_type payload i t)
  unfolding step
  step-IsExclusive i t v = record {
    alone = λ j k a b. elim (serving-set i j out.0 t.turn a) [
      | inl (j_is, h) ↦ elim (serving-set i k out.0 t.turn b) [
        | inl (k_is, h') ↦ j_is ∙ sym k_is
        | inr (other, served) ↦ absurd (apart i k t out v g h other served)
      ]
      | inr (other, served) ↦ elim (serving-set i k out.0 t.turn b) [
        | inl (k_is, h) ↦ absurd (apart i j t out v g h other served)
        | inr (other', served') ↦ v.alone j k served served'
      ]
    ];
    held = λ j a. elim (serving-set i j out.0 t.turn a) [
      | inl (j_is, h) ↦ g.claimed h (v.held i)
      | inr (other, served) ↦ elim (Bool-cases (is_serving (t.turn i))) [
        | inl before ↦ (let same = v.alone j i served before in ground arith)
        | inr free ↦ g.untouched free (v.held j served)
      ]
    ];
  }
    where
      out : Turn X P E × Shared C X
      out = take_turn r timing config handlers event_id event_type payload (t.turn i) t.shared

      g : Guarded (t.turn i) t.shared out
      g = take_turn-Guarded (t.turn i) t.shared

  run-IsExclusive :
      (schedule : List ℕ) (t : Deliveries C X P E)
      → IsExclusive t
      → IsExclusive (run r timing config handlers event_id event_type payload schedule t)
  unfolding run
  run-IsExclusive [] t v = v
  run-IsExclusive (i ∷ schedule) t v =
      run-IsExclusive schedule (step r timing config handlers event_id event_type payload i t)
        (step-IsExclusive i t v)

  -- Where Redis answers, and the lease of the event stands from each grant on until someone deletes
  -- it: any number of deliveries of one event take their steps in any order from before
  -- `acquire_lease`. Two of them that are between a granted lease and the end of `process_event` at
  -- once are the same, and a delivery that asks for the lease meanwhile is refused.
  pub run-Exclusive :
      (s : Store C) (x : X) (schedule : List ℕ) (i j : ℕ) (turn : ℕ → Turn X P E)
      (after : Shared C X)
      → run r timing config handlers event_id event_type payload schedule
          (begun r timing config handlers event_id event_type payload s x)
        ≡ record { turn = turn; shared = after }
      → is_serving (turn i) ≡ true
      → is_serving (turn j) ≡ true
      → (i ≡ j)
        × ((take_turn r timing config handlers event_id event_type payload waiting after).0
            ≡ skipped)
  unfolding begun is_serving take_turn
  run-Exclusive s x schedule i j turn after e h h' = (
    v.alone i j h h',
    refused (acquire_lease r config.idempotency event_id after.store)
        (acquire_lease-Decided r config.idempotency event_id stands lasting after.store).0,
  )
    where
      v : IsExclusive (record { turn = turn; shared = after })
      v = subst IsExclusive e (
          run-IsExclusive schedule (begun r timing config handlers event_id event_type payload s x)
            (record { alone = λ j k a b. ground arith; held = λ j a. ground arith }))

      refused :
          (out : Bool × Store C)
          → (((out.0 ≡ true) × ¬ Stands after) ⊎ ((out.0 ≡ false) × Stands after))
          → (answered r timing config handlers event_id event_type payload out after).0 ≡ skipped
      refused (false, s') d = refl
      refused (true, s') (inl (a, free)) = absurd (free (v.held i h))
      refused (true, s') (inr (a, k)) = ground arith
