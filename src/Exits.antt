-- ===== src/Exits.antt =====
-- features/exits.py: how a position opened at a row ends.
mod Defs
pub mod Walk
pub mod Masks
pub mod Window
mod Tests
unfoldable pub use Defs.*
