-- ===== src/Calendar.antt =====
-- core/calendar.py: the trading calendar. A date is its ordinal (`date.toordinal()`), so dates are
-- compared as numbers. `self._sessions` is the sorted list and `self._set` the set that it was
-- sorted from; `bisect_left` and `bisect_right` are those of the standard library.
mod Defs
pub mod Order
pub mod Search
pub mod Build
pub mod Navigate
pub mod Shift
pub mod Window
pub mod Age
pub mod Fallback
mod Tests
unfoldable pub use Defs.*
