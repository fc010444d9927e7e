-- ===== src/Market.antt =====
-- liquidity.py and indicators/circuit.py: what a reading of the market licenses.
mod Defs
pub mod Licence
unfoldable pub use Defs.*
