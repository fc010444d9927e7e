-- ===== src/Cadence.antt =====
-- cadence.py: the clock that says whether a session may open new positions. Dates are ordinals.
mod Defs
pub mod Position
pub mod Schedule
pub mod Extend
mod Tests
unfoldable pub use Defs.*
