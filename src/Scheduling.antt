-- ===== src/Scheduling.antt =====
-- The scheduling context: backend/src/fsm/scheduling.
pub mod Outcome
pub mod CalendarIdentity
pub mod TimeRange
pub mod WorkingHours
pub mod Slots
pub mod Policy
pub mod RateLimit
pub mod Contact
pub mod Appointment
pub mod ServiceCall
pub mod Store
pub mod Repositories
pub mod Opening
pub mod Outbox
pub mod Context
pub mod Booking
pub mod Reconciliation
pub mod World
pub mod Dispatcher
pub mod History
pub mod Samples
pub mod Examples
