-- ===== src/Positions.antt =====
-- positions.py: what to do about an open position that events have overtaken.
mod Defs
pub mod Review
mod Tests
unfoldable pub use Defs.*
