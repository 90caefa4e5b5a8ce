-- ===== src/Idempotency/Records.antt =====
-- What the durable records and the cached set say of one another.
use commerceops_ai_platform.Base.{
  ◌≡◌, refl, inl, inr, true, ◌&&◌, ◌||◌, Bool-cases, Option, some, Option-cases, String, List, [],
  ◌∷◌, ◌++◌, str_eq, str_eq_sound, str_eq_self, contains, if◌then◌else◌, arith, eq_iff, subst, sym,
  ap, ◌∙◌,
}
use commerceops_ai_platform.Cache.{Redis, cache_get_json}
use commerceops_ai_platform.Cache.Laws.{
  IsRedis, cache_get_json-holds, holds-cache_get_json, holds-cache_set_json,
}
use commerceops_ai_platform.Idempotency.{
  EventKey, handlers_done, ProcessedEvent, has_row, handler_names, insert_row, Settings, Store,
  refresh_cache, completed_handlers, record_handler_done, names_or_none, is_empty,
}

has_row-append :
    (e n : String) (rows : List ProcessedEvent) (row : ProcessedEvent)
    → has_row e n (rows ++ row ∷ [])
      ≡ (has_row e n rows || (str_eq row.event_id e && str_eq row.handler_name n))
unfolding has_row
has_row-append e n [] row = ground arith
has_row-append e n (x ∷ rows) row = ground (arith, has_row-append e n rows row)

-- The query finds exactly the names that have a row.
pub contains-handler_names :
    (e n : String) (rows : List ProcessedEvent)
    → contains n (handler_names e rows) ≡ has_row e n rows
unfolding has_row handler_names
contains-handler_names e n [] = refl
contains-handler_names e n (row ∷ rows) = ground (arith, contains-handler_names e n rows)

-- An insertion keeps every row, and its own row is there afterwards, whoever put it there.
pub has_row-insert_row :
    (e n : String) (row : ProcessedEvent) (rows : List ProcessedEvent)
    → has_row e n rows ≡ true
    → has_row e n (insert_row row rows) ≡ true
unfolding insert_row
has_row-insert_row e n row rows h = ground (arith, has_row-append e n rows row)

pub has_row-insert_row_self :
    (row : ProcessedEvent) (rows : List ProcessedEvent)
    → has_row row.event_id row.handler_name (insert_row row rows) ≡ true
unfolding insert_row
has_row-insert_row_self row rows = ground (
  arith,
  has_row-append row.event_id row.handler_name rows row,
  str_eq_self row.event_id,
  str_eq_self row.handler_name,
)

module _ {C : Type 0} (r : Redis C EventKey (List String)) (settings : Settings)
    (holds : C → EventKey → List String → Type 0) (laws : IsRedis r holds) where
  -- Whatever Redis may answer, each name that it lists has a durable row.
  abbrev pub IsSound : Store C → Type 0
  IsSound s =
      (e n : String) (names : List String)
      → holds s.cache (handlers_done e) names
      → contains n names ≡ true
      → has_row e n s.rows ≡ true

  handlers_done-injective : (e e' : String) → handlers_done e ≡ handlers_done e' → e ≡ e'
  handlers_done-injective e e' h = cc

  refresh_cache-IsSound :
      (event_id : String) (names : List String) (rows : List ProcessedEvent) (c : C)
      → IsSound (record { rows = rows; cache = c })
      → ((n : String) → contains n names ≡ true → has_row event_id n rows ≡ true)
      → IsSound (record { rows = rows; cache = refresh_cache r settings event_id names c })
  unfolding refresh_cache
  refresh_cache-IsSound event_id names rows c v new e n listed h m =
      elim (holds-cache_set_json r holds laws settings.cache_enabled (handlers_done event_id)
        (handlers_done e) names listed settings.sqs_idempotency_ttl_seconds c h) [
          | inl (key, value) ↦
              subst (λ x. has_row x n rows ≡ true) (handlers_done-injective event_id e (sym key))
                (new n (subst (λ x. contains n x ≡ true) value m))
          | inr old ↦ v e n listed old m
        ]

  module _ (event_id : String) (s : Store C) (sound : IsSound s) where
    abbrev read : Option (List String) × C
    read = cache_get_json r settings.cache_enabled (handlers_done event_id) s.cache

    read-IsSound : IsSound (record s { cache = read.1 })
    read-IsSound e n names h = sound e n names (
        holds-cache_get_json r holds laws settings.cache_enabled (handlers_done event_id)
          (handlers_done e) names s.cache h)

    read_sound :
        (names : List String) (n : String)
        → read.0 ≡ some names
        → contains n names ≡ true
        → has_row event_id n s.rows ≡ true
    read_sound names n h = sound event_id n names (
        cache_get_json-holds r holds laws settings.cache_enabled (handlers_done event_id) names
          s.cache h)

    -- A miss writes back what the query found, if it found anything.
    missed : IsSound (record s {
      cache =
          if is_empty (handler_names event_id s.rows)
          then read.1
          else refresh_cache r settings event_id (handler_names event_id s.rows) read.1;
    })
    missed = elim (Bool-cases (is_empty (handler_names event_id s.rows))) [
      | inl none_found ↦ rw none_found read-IsSound
      | inr found ↦ rw found (
          refresh_cache-IsSound event_id (handler_names event_id s.rows) s.rows read.1 read-IsSound
            (λ n h. sym (contains-handler_names event_id n s.rows) ∙ h))
    ]

    pub completed_handlers-IsSound :
        let (done, s') = completed_handlers r settings event_id s in
        ((n : String) → contains n done ≡ true → has_row event_id n s.rows ≡ true)
        × (s'.rows ≡ s.rows)
        × IsSound s'
    unfolding completed_handlers
    completed_handlers-IsSound = elim (Option-cases read.0) [
      | inl miss ↦
          rw (miss, completed_handlers)
            (λ n h. sym (contains-handler_names event_id n s.rows) ∙ h, refl, missed)
      | inr (names, hit) ↦
          rw (hit, completed_handlers) (λ n h. read_sound names n hit h, refl, read-IsSound)
    ]

    pub record_handler_done-IsSound :
        (event_type name : String)
        → let s' = record_handler_done r settings event_id event_type name s in
          (has_row event_id name s'.rows ≡ true)
          × ((e n : String) → has_row e n s.rows ≡ true → has_row e n s'.rows ≡ true)
          × IsSound s'
    unfolding record_handler_done
    record_handler_done-IsSound event_type name = (
      has_row-insert_row_self row s.rows,
      λ e n h. has_row-insert_row e n row s.rows h,
      refresh_cache-IsSound event_id (name ∷ names_or_none r settings read.0)
          (insert_row row s.rows) read.1
          (λ e n names h m. has_row-insert_row e n row s.rows (read-IsSound e n names h m)) added,
    )
      where
        row : ProcessedEvent
        row = record { event_id = event_id; handler_name = name; event_type = event_type }

        kept :
            (n : String)
            → contains n (names_or_none r settings read.0) ≡ true
            → has_row event_id n s.rows ≡ true
        kept n h = elim (Option-cases read.0) [
          | inl miss ↦ absurd (ground arith)
          | inr (names, hit) ↦
              read_sound names n hit
                (ap (λ x. contains n (names_or_none r settings x)) (sym hit) ∙ h)
        ]

        added :
            (n : String)
            → contains n (name ∷ names_or_none r settings read.0) ≡ true
            → has_row event_id n (insert_row row s.rows) ≡ true
        added n h = elim (Bool-cases (str_eq name n)) [
          | inl same ↦
              subst (λ x. has_row event_id x (insert_row row s.rows) ≡ true)
                (str_eq_sound name n same) (has_row-insert_row_self row s.rows)
          | inr other ↦ has_row-insert_row event_id n row s.rows (kept n (ground arith))
        ]

    -- Where Redis keeps to its laws and every handler name that it may answer has its durable row:
    -- a handler that `completed_handlers` reports has its durable row, no row is written, and what
    -- Redis may answer is still covered by durable rows.
    pub completed_handlers-has_row :
        (n : String)
        → contains n (completed_handlers r settings event_id s).0 ≡ true
        → let s' = (completed_handlers r settings event_id s).1 in
          (has_row event_id n s.rows ≡ true) × (s'.rows ≡ s.rows) × IsSound s'
    completed_handlers-has_row n h =
        let (told, same, cover) = completed_handlers-IsSound in (told n h, same, cover)

    -- Where Redis keeps to its laws and every handler name that it may answer has its durable row:
    -- `record_handler_done` adds the row of the event and the handler and no other, loses none,
    -- and what Redis may answer is still covered by durable rows.
    pub record_handler_done-has_row :
        (event_type name e n : String)
        → let s' = record_handler_done r settings event_id event_type name s in
          (has_row e n s'.rows ≡ (has_row e n s.rows || (str_eq event_id e && str_eq name n)))
          × IsSound s'
    unfolding record_handler_done insert_row
    record_handler_done-has_row event_type name e n = (
      unfold insert_row in
          let row : ProcessedEvent = record {
            event_id = event_id;
            handler_name = name;
            event_type = event_type;
          } in
          ground (arith, has_row-append e n s.rows row, eq_iff event_id e, eq_iff name n),
      (record_handler_done-IsSound event_type name).2,
    )
