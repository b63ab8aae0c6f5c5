-- ===== src/Sync.antt =====
-- The sync engine: web/src/state/sync.ts.
pub mod Contacts
pub mod Conversations
pub mod Previews
pub mod Stored
pub mod Incoming
pub mod Backfill
pub mod Events
pub mod Steps
pub mod Kept
pub mod Complete
pub mod Authentic
pub mod Removed
pub mod Purged
pub mod Edited
