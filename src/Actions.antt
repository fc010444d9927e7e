-- ===== src/Actions.antt =====
-- data/corporate_actions.py: adjustment factors, and actions that are described twice.
mod Defs
pub mod Factors
pub mod Clusters
pub mod Covered
mod Tests
unfoldable pub use Defs.*
