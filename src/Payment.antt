-- ===== src/Payment.antt =====
-- app/payment: the gateway client and the charge endpoint behind it. Amounts are in cents.
mod Data
pub mod Gateway
pub mod Service
pub mod Router
pub use Data.*
