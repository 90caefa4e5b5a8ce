-- ===== src/Worker/Race/Safe.antt =====
-- However workers interleave in `process_event` of app/worker.py, a worker that leaves nothing
-- outstanding leaves every handler recorded, and nothing is recorded that did not return.
use commerceops_ai_platform.Base.{
  ℕ, ◌≡◌, refl, ap, subst, ◌∙◌, inl, inr, true, false, Bool-cases, String, List, [], ◌∷◌, ◌++◌, All,
  All-map, ◌⊎◌, ◌==◌, contains, arith,
}
use commerceops_ai_platform.Reliability.Retry.{Timing, retry_with_backoff}
use commerceops_ai_platform.Cache.{Redis}
use commerceops_ai_platform.Cache.Laws.{IsRedis}
use commerceops_ai_platform.Idempotency.{EventKey, Store, has_row}
use commerceops_ai_platform.Idempotency.Records.{IsSound}
use commerceops_ai_platform.Worker.{Handler, Config}
use commerceops_ai_platform.Worker.Race.{
  Phase, starting, visiting, recording, finished, Shared, Workers, set, advance, step, run, begun,
}
use commerceops_ai_platform.Worker.Race.Steps.{
  Settled, Placed, Placed-Grows, IsTraced, Kept, unchanged, Looping-next, listed-Kept, judged-Kept,
  recording-Kept,
}

module _ {C X P E : Type 0} (r : Redis C EventKey (List String)) (timing : Timing X)
    (config : Config) (handlers : List (Handler X P E)) (event_id event_type : String) (payload : P)
    (holds : C → EventKey → List String → Type 0) (laws : IsRedis r holds) where
  abbrev Place : Shared C X → Phase X P E → Type 0
  Place = Placed r timing config handlers event_id event_type payload holds laws

  abbrev Traced : Shared C X → Type 0
  Traced = IsTraced r timing config handlers event_id event_type payload holds laws

  abbrev Keeps : Shared C X → Phase X P E × Shared C X → Type 0
  Keeps = Kept r timing config handlers event_id event_type payload holds laws

  advance-Kept :
      (p : Phase X P E) (w : Shared C X)
      → Traced w
      → Place w p
      → Keeps w (advance r timing config handlers event_id event_type payload p w)
  unfolding advance
  advance-Kept starting w v h =
      listed-Kept r timing config handlers event_id event_type payload holds laws w v
  advance-Kept (visiting d [] o) w v l = record {
    traced = v;
    placed =
        subst
          (All (Settled r timing config handlers event_id event_type payload holds laws w.store o))
          (append_nil l.seen ∙ l.all) l.settled;
    grows = unchanged r timing config handlers event_id event_type payload holds laws w;
  }
    where
      append_nil : (hs : List (Handler X P E)) → hs ≡ hs ++ []
      append_nil [] = refl
      append_nil (h ∷ hs) = ap (λ t. h ∷ t) (append_nil hs)
  advance-Kept (visiting d (h ∷ rest) o) w v l = elim (Bool-cases (contains h.name d)) [
    | inl old ↦ rw old (record {
      traced = v;
      placed =
          Looping-next r timing config handlers event_id event_type payload holds laws w d h rest o
            o l (λ k s. s) (inr (l.told h.name old));
      grows = unchanged r timing config handlers event_id event_type payload holds laws w;
    })
    | inr new ↦ rw new (
        judged-Kept r timing config handlers event_id event_type payload holds laws h d rest o w
          (retry_with_backoff timing config.retry (λ e. true) (h.run event_type payload) w.outside)
          v l)
  ]
  advance-Kept (recording h d rest o) w v p =
      recording-Kept r timing config handlers event_id event_type payload holds laws h d rest o w v
        p
  advance-Kept (finished o) w v p = record {
    traced = v;
    placed = p;
    grows = unchanged r timing config handlers event_id event_type payload holds laws w;
  }

  record IsSafe (t : Workers C X P E) : Type 0 where
    traced : Traced t.shared
    placed : (i : ℕ) → Place t.shared (t.phase i)

  step-IsSafe :
      (i : ℕ) (t : Workers C X P E)
      → IsSafe t
      → IsSafe (step r timing config handlers event_id event_type payload i t)
  unfolding step set
  step-IsSafe i t v = record {
    traced = kept.traced;
    placed = λ j. elim (Bool-cases (j == i)) [
      | inl same ↦ rw same kept.placed
      | inr other ↦ rw other (
          Placed-Grows r timing config handlers event_id event_type payload holds laws t.shared
            out.1 kept.grows (t.phase j) (v.placed j))
    ];
  }
    where
      out : Phase X P E × Shared C X
      out = advance r timing config handlers event_id event_type payload (t.phase i) t.shared

      kept : Keeps t.shared out
      kept = advance-Kept (t.phase i) t.shared v.traced (v.placed i)

  run-IsSafe :
      (schedule : List ℕ) (t : Workers C X P E)
      → IsSafe t
      → IsSafe (run r timing config handlers event_id event_type payload schedule t)
  unfolding run
  run-IsSafe [] t v = v
  run-IsSafe (i ∷ schedule) t v =
      run-IsSafe schedule (step r timing config handlers event_id event_type payload i t)
        (step-IsSafe i t v)

  -- A handler that is outstanding, or that returned and is recorded.
  abbrev pub Ended : Shared C X → List String → Handler X P E → Type 0
  Ended w outstanding h =
      (contains h.name outstanding ≡ true)
      ⊎ ((has_row event_id h.name w.store.rows ≡ true) × (contains h.name w.returned ≡ true))

  -- Any number of workers serve one event at once, from a store with no row of the event, where Redis
  -- keeps to its laws and each handler name that it may answer has its durable row. Whatever the
  -- order of their steps, with the lease or without: when a worker is done, each handler is
  -- among its outstanding ones, or it has returned and is recorded.
  pub run-Ended :
      (s : Store C) (x : X) (schedule : List ℕ) (i : ℕ) (outstanding : List String)
      (phase : ℕ → Phase X P E) (after : Shared C X)
      → IsSound r config.idempotency holds laws s
      → ((n : String) → has_row event_id n s.rows ≡ false)
      → run r timing config handlers event_id event_type payload schedule
          (begun r timing config handlers event_id event_type payload s x)
        ≡ record { phase = phase; shared = after }
      → phase i ≡ finished outstanding
      → All (Ended after outstanding) handlers
  unfolding begun
  run-Ended s x schedule i outstanding phase after sound fresh e done =
      All-map ended handlers (subst (Place after) done (safe.placed i))
    where
      none_yet : (n : String) → has_row event_id n s.rows ≡ true → ⊥
      none_yet n h = ground (arith, h, fresh n)

      safe : IsSafe (record { phase = phase; shared = after })
      safe = subst IsSafe e (
          run-IsSafe schedule (begun r timing config handlers event_id event_type payload s x)
            (record {
              traced = record { sound = sound; traced = λ n h. absurd (none_yet n h) };
              placed = λ j. tt;
            }))

      ended :
          (h : Handler X P E)
          → Settled r timing config handlers event_id event_type payload holds laws after.store
              outstanding h
          → Ended after outstanding h
      ended h (inl o) = inl o
      ended h (inr row) = inr (row, safe.traced.traced h.name row)
