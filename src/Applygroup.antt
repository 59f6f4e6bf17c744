-- ===== src/Applygroup.antt =====
-- controllers/applygroup/applygroup.go: trees of resources to apply or delete.
mod Data
pub mod Walk
pub mod Apply
pub mod Options
pub mod Decode
pub use Data.*
