-- ===== src/Messaging.antt =====
-- Outgoing messages and key trust: web/src/state/messaging.ts.
pub mod Recipients
pub mod Send
pub mod Edit
pub mod Trust
pub mod Groups
pub mod Sealed
pub mod Rollback
