-- ===== src/Worker/Race/Steps.antt =====
-- What one step of a worker in `process_event` of app/worker.py keeps, for all the workers.
use commerceops_ai_platform.Base.{
  ⊤, ◌≡◌, refl, sym, subst, ◌∙◌, ◌⊎◌, inl, inr, true, ◌||◌, Bool-cases, String, List, [], ◌∷◌, ◌++◌,
  append_assoc, All, All-map, All-append, str_eq, str_eq_self, str_eq_sound, contains, Result, ok,
  err, arith,
}
use commerceops_ai_platform.Reliability.{Failure}
use commerceops_ai_platform.Reliability.Retry.{Timing}
use commerceops_ai_platform.Cache.{Redis}
use commerceops_ai_platform.Cache.Laws.{IsRedis}
use commerceops_ai_platform.Idempotency.{
  EventKey, Store, has_row, completed_handlers, record_handler_done,
}
use commerceops_ai_platform.Idempotency.Records.{
  IsSound, completed_handlers-IsSound, record_handler_done-IsSound, record_handler_done-has_row,
}
use commerceops_ai_platform.Worker.{Handler, Config}
use commerceops_ai_platform.Worker.Race.{
  Phase, starting, visiting, recording, finished, Shared, judged, advance,
}

contains-append :
    (n m : String) (names : List String)
    → contains n (names ++ m ∷ []) ≡ (contains n names || str_eq m n)
contains-append n m [] = ground arith
contains-append n m (x ∷ names) = ground (arith, contains-append n m names)

contains-append_kept :
    (n m : String) (names : List String)
    → contains n names ≡ true
    → contains n (names ++ m ∷ []) ≡ true
contains-append_kept n m names h = ground (arith, contains-append n m names)

contains-append_self : (m : String) (names : List String) → contains m (names ++ m ∷ []) ≡ true
contains-append_self m names = ground (arith, contains-append m m names, str_eq_self m)

module _ {C X P E : Type 0} (r : Redis C EventKey (List String)) (timing : Timing X)
    (config : Config) (handlers : List (Handler X P E)) (event_id event_type : String) (payload : P)
    (holds : C → EventKey → List String → Type 0) (laws : IsRedis r holds) where
  -- A handler whose turn is over is outstanding, or has its durable row.
  abbrev pub Settled : Store C → List String → Handler X P E → Type 0
  Settled s names h = (contains h.name names ≡ true) ⊎ (has_row event_id h.name s.rows ≡ true)

  -- A worker in the loop: the handlers that it has seen are settled, and those that it was told of are
  -- recorded.
  pub record Looping (w : Shared C X) (already_done : List String) (rest : List (Handler X P E))
      (outstanding : List String) : Type 0 where
    pub seen : List (Handler X P E)
    pub all : seen ++ rest ≡ handlers
    pub settled : All (Settled w.store outstanding) seen
    pub told :
        (n : String) → contains n already_done ≡ true → has_row event_id n w.store.rows ≡ true

  abbrev pub Placed : Shared C X → Phase X P E → Type 0
  Placed w starting = Unit {0}
  Placed w (visiting already_done rest outstanding) = Looping w already_done rest outstanding
  Placed w (recording h already_done rest outstanding) =
      Looping w already_done (h ∷ rest) outstanding × (contains h.name w.returned ≡ true)
  Placed w (finished outstanding) = All (Settled w.store outstanding) handlers

  -- What Redis may answer is recorded, and what is recorded has returned.
  pub record IsTraced (w : Shared C X) : Type 0 where
    pub sound : IsSound r config.idempotency holds laws w.store
    pub traced :
        (n : String) → has_row event_id n w.store.rows ≡ true → contains n w.returned ≡ true

  -- No row and no return is lost.
  pub record Grows (w w' : Shared C X) : Type 0 where
    pub rows :
        (n : String)
        → has_row event_id n w.store.rows ≡ true
        → has_row event_id n w'.store.rows ≡ true
    pub returned : (n : String) → contains n w.returned ≡ true → contains n w'.returned ≡ true

  Settled-Grows :
      (w w' : Shared C X)
      → Grows w w'
      → (names : List String) (h : Handler X P E) → Settled w.store names h
      → Settled w'.store names h
  Settled-Grows w w' g names h (inl o) = inl o
  Settled-Grows w w' g names h (inr row) = inr (g.rows h.name row)

  Looping-Grows :
      (w w' : Shared C X)
      → Grows w w'
      → (already_done : List String) (rest : List (Handler X P E)) (outstanding : List String)
      → Looping w already_done rest outstanding
      → Looping w' already_done rest outstanding
  Looping-Grows w w' g already_done rest outstanding l = record {
    seen = l.seen;
    all = l.all;
    settled = All-map (Settled-Grows w w' g outstanding) l.seen l.settled;
    told = λ n h. g.rows n (l.told n h);
  }

  pub Placed-Grows : (w w' : Shared C X) → Grows w w' → (p : Phase X P E) → Placed w p → Placed w' p
  Placed-Grows w w' g starting h = h
  Placed-Grows w w' g (visiting d rest o) h = Looping-Grows w w' g d rest o h
  Placed-Grows w w' g (recording k d rest o) (l, done) =
      (Looping-Grows w w' g d (k ∷ rest) o l, g.returned k.name done)
  Placed-Grows w w' g (finished o) h = All-map (Settled-Grows w w' g o) handlers h

  -- The next handler is settled too.
  pub Looping-next :
      (w : Shared C X) (d : List String) (h : Handler X P E) (rest : List (Handler X P E))
      (o o' : List String)
      → Looping w d (h ∷ rest) o
      → ((k : Handler X P E) → Settled w.store o k → Settled w.store o' k)
      → Settled w.store o' h
      → Looping w d rest o'
  Looping-next w d h rest o o' l keeps s = record {
    seen = l.seen ++ h ∷ [];
    all = append_assoc l.seen (h ∷ []) rest ∙ l.all;
    settled =
        All-append (Settled w.store o') l.seen (h ∷ []) (All-map keeps l.seen l.settled) (s, tt);
    told = l.told;
  }

  pub record Kept (w : Shared C X) (out : Phase X P E × Shared C X) : Type 0 where
    pub traced : IsTraced out.1
    pub placed : Placed out.1 out.0
    pub grows : Grows w out.1

  pub unchanged : (w : Shared C X) → Grows w w
  unchanged w = record { rows = λ n h. h; returned = λ n h. h }

  pub listed-Kept :
      (w : Shared C X)
      → IsTraced w
      → Kept w (advance r timing config handlers event_id event_type payload starting w)
  unfolding advance
  listed-Kept w v =
      let c = completed_handlers-IsSound r config.idempotency holds laws event_id w.store v.sound in
      let forth : (n : String)
          → has_row event_id n w.store.rows ≡ true
          → has_row event_id n (completed_handlers r config.idempotency event_id w.store).1.rows
            ≡ true =
        λ n h. subst (λ rows. has_row event_id n rows ≡ true) (sym c.1) h in
      record {
        traced = record {
          sound = c.2;
          traced = λ n h. v.traced n (subst (λ rows. has_row event_id n rows ≡ true) c.1 h);
        };
        placed = record { seen = []; all = refl; settled = tt; told = λ n h. forth n (c.0 n h) };
        grows = record { rows = forth; returned = λ n h. h };
      }

  pub judged-Kept :
      (h : Handler X P E) (d : List String) (rest : List (Handler X P E)) (o : List String)
      (w : Shared C X) (out : Result (Failure E) ⊤ × X)
      → IsTraced w
      → Looping w d (h ∷ rest) o
      → Kept w (judged r timing config handlers event_id event_type payload h d rest o w out)
  judged-Kept h d rest o w (ok a, x) v l =
      let more = λ (n : String). contains-append_kept n h.name w.returned in
      record {
        traced = record { sound = v.sound; traced = λ n row. more n (v.traced n row) };
        placed = (
          record { seen = l.seen; all = l.all; settled = l.settled; told = l.told },
          contains-append_self h.name w.returned,
        );
        grows = record { rows = λ n row. row; returned = more };
      }
  judged-Kept h d rest o w (err e, x) v l =
      let w' : Shared C X = record w { outside = x } in
      record {
        traced = record { sound = v.sound; traced = v.traced };
        placed =
            Looping-next w' d h rest o (o ++ h.name ∷ [])
              (record { seen = l.seen; all = l.all; settled = l.settled; told = l.told }) still
              (inl (contains-append_self h.name o));
        grows = record { rows = λ n row. row; returned = λ n done. done };
      }
    where
      still : (k : Handler X P E) → Settled w.store o k → Settled w.store (o ++ h.name ∷ []) k
      still k (inl s) = inl (contains-append_kept k.name h.name o s)
      still k (inr s) = inr s

  pub recording-Kept :
      (h : Handler X P E) (d : List String) (rest : List (Handler X P E)) (o : List String)
      (w : Shared C X)
      → IsTraced w
      → Placed w (recording h d rest o)
      → Kept w
          (advance r timing config handlers event_id event_type payload (recording h d rest o) w)
  unfolding advance
  recording-Kept h d rest o w v (l, done) = record {
    traced = record { sound = t.2; traced = back };
    placed =
        Looping-next w' d h rest o o (Looping-Grows w w' grown d (h ∷ rest) o l) (λ k s. s)
          (inr t.0);
    grows = grown;
  }
    where
      w' : Shared C X
      w' = record w {
        store = record_handler_done r config.idempotency event_id event_type h.name w.store;
      }

      t :
          (has_row event_id h.name w'.store.rows ≡ true)
          × ((e n : String) → has_row e n w.store.rows ≡ true → has_row e n w'.store.rows ≡ true)
          × IsSound r config.idempotency holds laws w'.store
      t =
          record_handler_done-IsSound r config.idempotency holds laws event_id w.store v.sound
            event_type h.name

      grown : Grows w w'
      grown = record { rows = t.1 event_id; returned = λ n k. k }

      back : (n : String) → has_row event_id n w'.store.rows ≡ true → contains n w.returned ≡ true
      back n row =
          let e =
            (record_handler_done-has_row r config.idempotency holds laws event_id w.store v.sound
              event_type h.name event_id n).0 in
          elim (Bool-cases (str_eq h.name n)) [
            | inl same ↦ subst (λ m. contains m w.returned ≡ true) (str_eq_sound h.name n same) done
            | inr other ↦ v.traced n (ground (arith, e, str_eq_self event_id))
          ]
