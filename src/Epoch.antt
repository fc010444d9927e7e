-- ===== src/Epoch.antt =====
-- validation/epoch.py: the append-only log of epochs, and the drift of the engine from the open one.
mod Defs
mod Records
mod Log
pub mod Sound
pub mod Single
pub mod Drift
mod Tests
unfoldable pub use Defs.*
