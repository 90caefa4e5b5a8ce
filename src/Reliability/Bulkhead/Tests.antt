-- ===== src/Reliability/Bulkhead/Tests.antt =====
-- Concrete runs of the bulkhead.
use commerceops_ai_platform.Base.{ℕ, ◌+◌, refl, Result, err, arith}
use commerceops_ai_platform.Reliability.Failures.{Failure, raised}
use commerceops_ai_platform.Reliability.Bulkhead.{init}
use commerceops_ai_platform.Reliability.Bulkhead.Threads.{
  Threads, Reach, here, next, acquire, reject, count_in, idle,
}

abbrev failing : ℕ → Result (Failure ℕ) ℕ × ℕ
failing s = (err (raised 503), s + 1)

-- One thread is inside, and another was refused.
abbrev busy : Threads
busy = record {
  bulkhead = record { max_concurrency = 1; permits = 0; in_use = 1 };
  entering = 0;
  leaving = 0;
}

Reach-busy : Reach (idle 1) busy
unfolding init
Reach-busy =
    next (next (next here (acquire (omega arith) refl)) (count_in (omega arith) refl))
      (reject refl refl)
