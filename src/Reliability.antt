-- ===== src/Reliability.antt =====
-- app/core/reliability.py: retry with backoff, the circuit breaker and the bulkhead.
pub mod Failures
pub mod Retry
pub mod Breaker
pub mod Bulkhead
pub mod Protected
pub use Failures.*
