-- ===== src/Gate.antt =====
-- conviction/gate.py: the gates that a candidate passes, and the filling of the two slots.
mod Defs
mod Slots
pub mod Evaluate
pub mod Order
pub mod Ranking
pub mod Select
mod Tests
unfoldable pub use Defs.*
unfoldable pub use Slots.*
