-- ===== src/Outcomes.antt =====
-- outcomes.py: how a recorded signal ended.
mod Defs
mod Resolve
mod Pending
pub mod Walk
pub mod Fill
pub mod Final
pub mod Elapsed
pub mod Once
pub mod Adds
pub mod Scored
pub mod Locked
mod Tests
unfoldable pub use Defs.*
unfoldable pub use Resolve.*
unfoldable pub use Pending.*
