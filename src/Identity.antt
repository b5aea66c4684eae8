-- ===== src/Identity.antt =====
-- The identity context: backend/src/fsm/identity.
pub mod User
pub mod Users
pub mod Service
pub mod Examples
