-- ===== src/Search.antt =====
-- The search under the chat list: web/src/state/search.ts.
pub mod Matching
pub mod Running
pub mod Latest
