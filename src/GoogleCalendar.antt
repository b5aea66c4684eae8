-- ===== src/GoogleCalendar.antt =====
-- The calendar context: backend/src/fsm/google_calendar.
pub mod Connections
pub mod Examples
