-- ===== src/Book.antt =====
-- book.py: the names that an equal-weight book holds, and the capital that each gets.
mod Defs
mod Amounts
pub mod Paid
mod Shares
pub mod Select
pub mod Allocate
mod Tests
unfoldable pub use Defs.*
