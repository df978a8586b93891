-- ===== src/Calendar.antt =====
-- The calendar: app/calendar/rules.py and app/calendar/ics.py.
pub mod Sets
pub mod Runs
pub mod Weeks
pub mod Segment
pub mod Parsing
pub mod WeekLaws
pub mod Dates
pub mod Periods
pub mod Arrange
pub mod Events
pub mod EventLaws
pub mod Text
pub mod Fold
pub mod Escape
mod Tests
