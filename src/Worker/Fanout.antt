-- ===== src/Worker/Fanout.antt =====
-- `process_event`: what it leaves durable, and what it leaves outstanding.
use commerceops_ai_platform.Base.{
  ⊤, ◌≡◌, refl, sym, subst, ◌⊎◌, inl, inr, true, Bool-cases, Option, none, some, String, List, [],
  ◌∷◌, All, All-map, str_eq_self, contains, Result, ok, err, arith,
}
use commerceops_ai_platform.Reliability.{Failure}
use commerceops_ai_platform.Reliability.Retry.{Timing, retry_with_backoff}
use commerceops_ai_platform.Cache.{Redis}
use commerceops_ai_platform.Cache.Laws.{IsRedis}
use commerceops_ai_platform.Idempotency.{EventKey, Store, has_row, completed_handlers}
use commerceops_ai_platform.Idempotency.Records.{
  IsSound, completed_handlers-IsSound, record_handler_done-IsSound,
}
use commerceops_ai_platform.Queue.{Sqs}
use commerceops_ai_platform.Worker.{
  Body, Handler, Config, visit, visit_all, process_event, settle, cons_option,
}

module _ {C Q X P E : Type 0} (r : Redis C EventKey (List String)) (client : Sqs Q (Body P))
    (timing : Timing X) (config : Config) (handlers : List (Handler X P E))
    (holds : C → EventKey → List String → Type 0) (laws : IsRedis r holds) where
  abbrev Sound : Store C → Type 0
  Sound = IsSound r config.idempotency holds laws

  abbrev Keeps : Store C → Store C → Type 0
  Keeps s s' = (e n : String) → has_row e n s.rows ≡ true → has_row e n s'.rows ≡ true

  -- A handler whose turn is over is outstanding, or has its durable row.
  abbrev pub Settled : String → Store C → List String → Handler X P E → Type 0
  Settled event_id s names h =
      (contains h.name names ≡ true) ⊎ (has_row event_id h.name s.rows ≡ true)

  record Visited (event_id name : String) (s s' : Store C) (o : Option String) : Type 0 where
    sound : Sound s'
    keeps : Keeps s s'
    settled : (o ≡ some name) ⊎ (has_row event_id name s'.rows ≡ true)

  module _ (event_id event_type : String) (payload : P) (already_done : List String) where
    visit-Visited :
        (h : Handler X P E) (s : Store C) (x : X)
        → Sound s
        → ((n : String) → contains n already_done ≡ true → has_row event_id n s.rows ≡ true)
        → let (o, (s', x')) =
            visit r client timing config handlers already_done event_id event_type payload h
              (s, x) in
          Visited event_id h.name s s' o
    unfolding visit
    visit-Visited h s x v done = elim (Bool-cases (contains h.name already_done)) [
      | inl old ↦ rw old (record { sound = v; keeps = λ e n k. k; settled = inr (done h.name old) })
      | inr new ↦
          rw new
            (go (retry_with_backoff timing config.retry (λ e. true) (h.run event_type payload) x))
    ]
      where
        go :
            (out : Result (Failure E) ⊤ × X)
            → let (o, (s', x')) =
                settle r client timing config handlers event_id event_type h.name s out in
              Visited event_id h.name s s' o
        go (ok a, x') =
            let t =
              record_handler_done-IsSound r config.idempotency holds laws event_id s v event_type
                h.name in
            record { sound = t.2; keeps = t.1; settled = inr t.0 }
        go (err e, x') = record { sound = v; keeps = λ e n k. k; settled = inl refl }

    visit_all-Settled :
        (hs : List (Handler X P E)) (s : Store C) (x : X)
        → Sound s
        → ((n : String) → contains n already_done ≡ true → has_row event_id n s.rows ≡ true)
        → let (names, (s', x')) =
            visit_all r client timing config handlers already_done event_id event_type payload hs
              (s, x) in
          Sound s' × Keeps s s' × All (Settled event_id s' names) hs
    unfolding visit_all
    visit_all-Settled [] s x v done = (v, λ e n k. k, tt)
    visit_all-Settled (h ∷ hs) s x v done =
        let w =
          visit r client timing config handlers already_done event_id event_type payload h (s, x) in
        let vs = visit-Visited h s x v done in
        let rest =
          visit_all-Settled hs w.1.0 w.1.1 vs.sound (λ n c. vs.keeps event_id n (done n c)) in
        (
          rest.0,
          λ e n k. rest.1 e n (vs.keeps e n k),
          (head w.0 vs.settled rest.1, All-map (λ g. later w.0 g) hs rest.2),
        )
      where
        out : List String × (Store C × X)
        out =
            visit_all r client timing config handlers already_done event_id event_type payload hs
              (visit r client timing config handlers already_done event_id event_type payload h
                (s, x)).1

        mid : Store C
        mid =
            (visit r client timing config handlers already_done event_id event_type payload h
              (s, x)).1.0

        head :
            (o : Option String)
            → ((o ≡ some h.name) ⊎ (has_row event_id h.name mid.rows ≡ true))
            → Keeps mid out.1.0
            → Settled event_id out.1.0 (cons_option r client timing config handlers o out.0) h
        head o (inl e) k = inl (ground (arith, e, str_eq_self h.name))
        head o (inr e) k = inr (k event_id h.name e)

        later :
            (o : Option String) (g : Handler X P E)
            → Settled event_id out.1.0 out.0 g
            → Settled event_id out.1.0 (cons_option r client timing config handlers o out.0) g
        later none g t = t
        later (some n) g (inl e) = inl (ground (arith, e))
        later (some n) g (inr e) = inr e

  pub process_event_all :
      (event_id event_type : String) (payload : P) (s : Store C) (x : X)
      → IsSound r config.idempotency holds laws s
      → let (names, (s', x')) =
          process_event r client timing config handlers event_id event_type payload (s, x) in
        IsSound r config.idempotency holds laws s'
        × ((e n : String) → has_row e n s.rows ≡ true → has_row e n s'.rows ≡ true)
        × All (Settled event_id s' names) handlers
  unfolding process_event
  process_event_all event_id event_type payload s x v =
      let (done, (same, v')) = completed in
      let s' = (completed_handlers r config.idempotency event_id s).1 in
      let (sound, keeps, all) =
        visit_all-Settled event_id event_type payload
          (completed_handlers r config.idempotency event_id s).0 handlers s' x v'
          (λ n c. subst (λ rows. has_row event_id n rows ≡ true) (sym same) (done n c)) in
      (sound, λ e n k. keeps e n (subst (λ rows. has_row e n rows ≡ true) (sym same) k), all)
    where
      completed :
          ((n : String)
            → contains n (completed_handlers r config.idempotency event_id s).0 ≡ true
            → has_row event_id n s.rows ≡ true)
          × (((completed_handlers r config.idempotency event_id s).1.rows ≡ s.rows)
              × Sound (completed_handlers r config.idempotency event_id s).1)
      completed =
          let t = completed_handlers-IsSound r config.idempotency holds laws event_id s v in
          (t.0, (t.1, t.2))

  -- Where Redis keeps to its laws and every handler name that it may answer has its durable row,
  -- however the handlers fail: after `process_event` each handler is among the outstanding names
  -- that it returns or has its durable row, and what Redis may answer is still covered by durable
  -- rows.
  pub process_event-Settled :
      (event_id event_type : String) (payload : P) (s : Store C) (x : X)
      → IsSound r config.idempotency holds laws s
      → let (names, (s', x')) =
          process_event r client timing config handlers event_id event_type payload (s, x) in
        IsSound r config.idempotency holds laws s' × All (Settled event_id s' names) handlers
  process_event-Settled event_id event_type payload s x v =
      let (sound, keeps, all) = process_event_all event_id event_type payload s x v in (sound, all)

  -- Where Redis keeps to its laws and every handler name that it may answer has its durable row,
  -- no durable row is lost by `process_event`.
  pub process_event_keeps :
      (event_id event_type : String) (payload : P) (s : Store C) (x : X) (e n : String)
      → IsSound r config.idempotency holds laws s
      → has_row e n s.rows ≡ true
      → let (_, (s', _)) =
          process_event r client timing config handlers event_id event_type payload (s, x) in
        has_row e n s'.rows ≡ true
  process_event_keeps event_id event_type payload s x e n v h =
      let (sound, keeps, all) = process_event_all event_id event_type payload s x v in keeps e n h
