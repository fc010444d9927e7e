-- ===== src/Ledger.antt =====
-- ledger.py: the append-only record of runs, the lineage that a run reads, and its repair.
mod Defs
mod Repair
mod Scan
pub mod Previous
pub mod Conflicts
pub mod Lineage
pub mod Settled
pub mod Book
mod Tests
unfoldable pub use Defs.*
unfoldable pub use Repair.*
