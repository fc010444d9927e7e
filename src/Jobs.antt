-- ===== src/Jobs.antt =====
-- jobs.py: the single-flight job manager over its table of jobs.
mod Defs
mod Manager
pub mod Rows
pub mod Reap
pub mod Starts
pub mod Cancels
pub mod Steps
pub mod Flight
mod Tests
unfoldable pub use Defs.*
unfoldable pub use Manager.*
