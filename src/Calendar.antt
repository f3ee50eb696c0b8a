-- ===== src/Calendar.antt =====
-- tools/google_calendar.py: the calendar tools.
pub mod Dates
pub mod Days
pub mod Events
pub mod Service
pub mod Steps
pub mod Tools
pub mod Tokens
pub mod AllDay
pub mod Tests
