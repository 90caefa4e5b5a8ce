-- ===== src/Reliability/Bulkhead.antt =====
-- app/core/reliability.py, `Bulkhead`. The semaphore is its number of free permits; an acquire that
-- finds none times out. `call` is the whole method for a caller that no other thread interrupts;
-- `Bulkhead.Threads` interleaves its four steps.
pub mod Threads
mod Tests
use commerceops_ai_platform.Base.{
  ℕ, ◌+◌, ◌-◌, ◌≡◌, ◌⊎◌, inl, inr, zero, suc, Bool, ltb, if◌then◌else◌, Result, ok, err, arith,
}
use commerceops_ai_platform.Reliability.Failures.{Failure, bulkhead_full}

pub record Bulkhead : Type 0 where
  pub max_concurrency : ℕ
  pub permits : ℕ
  pub in_use : ℕ

-- `__init__`
unfoldable pub init : ℕ → Bulkhead
init max_concurrency = record {
  max_concurrency = max_concurrency;
  permits = max_concurrency;
  in_use = 0;
}

-- The semaphore's `acquire`, which found a permit, and the counter's `+= 1`.
abbrev pub enter : Bulkhead → Bulkhead
enter b = record b { permits = b.permits - 1; in_use = b.in_use + 1 }

-- The `finally` block.
abbrev pub leave : Bulkhead → Bulkhead
leave b = record b { in_use = b.in_use - 1; permits = b.permits + 1 }

-- `call`, on the bulkhead beside the state that `fn` changes.
unfoldable pub call :
    {S E A : Type 0}
    → (S → Result (Failure E) A × S)
    → Bulkhead × S
    → Result (Failure E) A × (Bulkhead × S)
call fn (b, s) =
    let (r, s') = fn s in
    if ltb 0 b.permits then (r, (leave (enter b), s')) else (err bulkhead_full, (b, s))

module _ {S E A : Type 0} (fn : S → Result (Failure E) A × S) where
  -- However `fn` ends, the permit is returned. `fn` runs exactly when a permit is free, its result
  -- comes back untouched, and without a permit nothing changes.
  pub call_lem :
      (b : Bulkhead) (s : S)
      → ((call fn (b, s)).1.0 ≡ b)
        × (call fn (b, s)
            ≡ (if ltb 0 b.permits then ((fn s).0, (b, (fn s).1)) else (err bulkhead_full, (b, s))))
  unfolding call
  call_lem b s = (ground arith, ground arith)
