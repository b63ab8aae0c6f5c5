-- ===== src/Calls.antt =====
-- One-to-one calls: web/src/state/calls.ts.
pub mod State
pub mod Engine
pub mod Lifecycle
pub mod Steps
pub mod Phases
pub mod Moves
pub mod Progress
