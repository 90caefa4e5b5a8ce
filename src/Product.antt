-- ===== src/Product.antt =====
-- app/product/service.py, app/product/models.py, app/product/schemas.py: the product table and the
-- stock. Money is in cents, as the `Numeric(10, 2)` columns hold it. The children model the stock
-- operations and the cached reads.
mod Data
pub mod Stock
pub mod Catalog
pub mod Creation
pub mod Routes
pub mod Pages
pub mod Inventory
pub use Data.*
