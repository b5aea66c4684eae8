-- ===== src/Assist.antt =====
-- The assist context: backend/src/fsm/assist.
pub mod Conversation
pub mod Summary
pub mod Store
pub mod Conversations
pub mod Photos
pub mod Replies
pub mod Streaming
pub mod Sources
pub mod Triage
pub mod Answers
pub mod Turns
pub mod Requests
pub mod Triples
pub mod Orderly
pub mod Samples
pub mod Examples
