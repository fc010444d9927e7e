-- ===== src/Cpcv.antt =====
-- validation/cpcv.py: combinatorial purged cross-validation.
mod Defs
pub mod Blocks
pub mod Purge
pub mod Combine
mod Tests
unfoldable pub use Defs.*
