-- ===== src/Sessions.antt =====
-- app/core/database.py, `with_read_retry`. A read is a call that may raise; delays are milliseconds.
pub mod Engines
pub mod Bounded
mod Tests
use commerceops_ai_platform.Base.{
  ℕ, zero, suc, ◌+◌, ◌-◌, ◌*◌, ◌≡◌, refl, inl, inr, max, Bool, false, ◌||◌, Bool-cases,
  if◌then◌else◌, Result, ok, err, Exec,
}

-- A `DBAPIError`: whether it is an `OperationalError`, its `connection_invalidated`, and whether its
-- text has one of the needles of `_is_replica_connection_error`.
pub record DbError : Type 0 where
  pub is_operational : Bool
  pub connection_invalidated : Bool
  pub has_needle : Bool

-- What a read raises: a database error, or an exception that is none.
pub data ReadError (H : Type 0) : Type 0 where
  db : DbError → ReadError H
  other : H → ReadError H

-- The test of the `except` clause.
abbrev pub is_transient : {H : Type 0} → ReadError H → Bool
is_transient (db e) = e.connection_invalidated || e.is_operational
is_transient (other h) = false

module _ {S H A : Type 0} (sleep : ℕ → S → S) (fn : Exec S (ReadError H) A) where
  -- The loop from attempt `attempt` on, with `n` attempts after it. What the last attempt raises is
  -- raised, be it `last_exc` or an error that is not retried.
  pub read_loop : ℕ → ℕ → S → Result (ReadError H) A × S
  read_loop zero attempt s = fn s
  read_loop (suc n) attempt s =
      let (r, s') = fn s in
      let rest = read_loop n (attempt + 1) (sleep (200 * attempt) s') in
      elim r [ ok a ↦ (ok a, s') | err e ↦ if is_transient e then rest else (err e, s') ]

  -- The first argument is `settings.db_transient_retry_attempts`.
  unfoldable pub with_read_retry : ℕ → S → Result (ReadError H) A × S
  unfolding read_loop
  with_read_retry attempts s = read_loop (max 1 attempts - 1) 1 s

  -- The result and the state after it are those of one call of `fn`.
  abbrev pub Called : Result (ReadError H) A × S → Type 0
  Called out = (s : S) × (fn s ≡ out)

  read_loop-Called : (n attempt : ℕ) (s : S) → Called (read_loop n attempt s)
  unfolding read_loop
  read_loop-Called zero attempt s = (s, refl)
  read_loop-Called (suc n) attempt s =
      go (λ s'. read_loop-Called n (attempt + 1) (sleep (200 * attempt) s')) (fn s).0 (fn s).1 refl
    where
      go :
          ((s' : S) → Called (read_loop n (attempt + 1) (sleep (200 * attempt) s')))
          → (r : Result (ReadError H) A) (s' : S) → fn s ≡ (r, s')
          → Called (elim r [
            | ok a ↦ (ok a, s')
            | err e ↦
                if is_transient e
                then read_loop n (attempt + 1) (sleep (200 * attempt) s')
                else (err e, s')
          ])
      go rest (ok a) s' h = (s, h)
      go rest (err e) s' h = elim (Bool-cases (is_transient e)) [
        | inl again ↦ rw again (rest s')
        | inr ends ↦ rw ends (s, h)
      ]

  pub with_read_retry-Called : (attempts : ℕ) (s : S) → Called (with_read_retry attempts s)
  unfolding with_read_retry
  with_read_retry-Called attempts s = read_loop-Called (max 1 attempts - 1) 1 s
