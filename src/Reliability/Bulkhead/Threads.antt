-- ===== src/Reliability/Bulkhead/Threads.antt =====
-- app/core/reliability.py, `Bulkhead.call` by many threads. A thread takes a permit, then counts
-- itself in, then counts itself out, then returns the permit; others run in between.
use commerceops_ai_platform.Base.{ℕ, ◌+◌, ◌-◌, ◌≤◌, ◌<◌, ◌≡◌, arith}
use commerceops_ai_platform.Reliability.Bulkhead.{Bulkhead, init}

-- The bulkhead, with the threads that hold a permit and are not counted in yet, or not any more.
pub record Threads : Type 0 where
  pub bulkhead : Bulkhead
  pub open bulkhead use *
  pub entering : ℕ
  pub leaving : ℕ

pub data Step (t : Threads) (u : Threads) : Type 0 where
  acquire :
      0 < t.permits
      → u ≡ record t {
        bulkhead = record t.bulkhead { permits = t.permits - 1 };
        entering = t.entering + 1;
      }
      → Step t u
  -- `acquire` timed out: the call raises `BulkheadFullError`.
  reject : t.permits ≡ 0 → u ≡ t → Step t u
  count_in :
      0 < t.entering
      → u ≡ record t {
        bulkhead = record t.bulkhead { in_use = t.in_use + 1 };
        entering = t.entering - 1;
      }
      → Step t u
  count_out :
      0 < t.in_use
      → u ≡ record t {
        bulkhead = record t.bulkhead { in_use = t.in_use - 1 };
        leaving = t.leaving + 1;
      }
      → Step t u
  release :
      0 < t.leaving
      → u ≡ record t {
        bulkhead = record t.bulkhead { permits = t.permits + 1 };
        leaving = t.leaving - 1;
      }
      → Step t u

pub data Reach (t : Threads) : Threads → Type 0 where
  here : Reach t t
  next : {u v : Threads} → Reach t u → Step u v → Reach t v

-- No thread has called yet.
abbrev pub idle : ℕ → Threads
idle max_concurrency = record { bulkhead = init max_concurrency; entering = 0; leaving = 0 }

-- Each permit is free or held by one thread.
abbrev IsBalanced : ℕ → Threads → Type 0
IsBalanced n t = (t.permits + t.entering + t.in_use + t.leaving ≡ n) × (t.max_concurrency ≡ n)

Step-IsBalanced : (n : ℕ) (t u : Threads) → Step t u → IsBalanced n t → IsBalanced n u
Step-IsBalanced n t u (acquire h e) b = ground arith
Step-IsBalanced n t u (reject h e) b = ground arith
Step-IsBalanced n t u (count_in h e) b = ground arith
Step-IsBalanced n t u (count_out h e) b = ground arith
Step-IsBalanced n t u (release h e) b = ground arith

Reach-IsBalanced : (n : ℕ) {u : Threads} → Reach (idle n) u → IsBalanced n u
unfolding init
Reach-IsBalanced n here = (omega arith, omega arith)
Reach-IsBalanced n (next {u = u} {v = v} r s) = Step-IsBalanced n u v s (Reach-IsBalanced n r)

-- However threads interleave, never more than `max_concurrency` of them run the guarded function,
-- and no more permits are free than there were at first, so that `release` never overflows the
-- bounded semaphore.
pub in_use-le-max :
    (max_concurrency : ℕ) {t : Threads}
    → Reach (idle max_concurrency) t
    → (t.in_use ≤ max_concurrency) × (t.permits + t.in_use ≤ max_concurrency)
in_use-le-max n r = let b = Reach-IsBalanced n r in (omega arith, omega arith)

-- With as many free permits as at first, the counter reads 0.
pub in_use-idle :
    (max_concurrency : ℕ) {t : Threads}
    → Reach (idle max_concurrency) t
    → t.permits ≡ max_concurrency
    → t.in_use ≡ 0
in_use-idle n r h = let b = Reach-IsBalanced n r in omega arith
