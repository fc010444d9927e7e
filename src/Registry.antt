-- ===== src/Registry.antt =====
-- validation/registry.py: the append-only register of trials and the budget of the passes.
mod Defs
mod Merge
pub mod Scores
mod Wanted
mod Budget
mod Known
mod Allocation
pub mod Recording
pub mod Table
mod Tests
unfoldable pub use Defs.*
