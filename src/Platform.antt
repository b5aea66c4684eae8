-- ===== src/Platform.antt =====
-- The HTTP layer over the contexts: backend/src/fsm/platform.
pub mod Backend
pub mod Session
pub mod Schedules
pub mod Appointments
pub mod Availability
pub mod Sync
pub mod Examples
