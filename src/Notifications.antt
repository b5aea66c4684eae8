-- ===== src/Notifications.antt =====
-- The notifications context: backend/src/fsm/notifications.
pub mod Feed
pub mod Delivery
pub mod Context
pub mod Examples
