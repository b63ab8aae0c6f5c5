-- ===== src/Voice.antt =====
-- Group voice channels: web/src/state/voice.ts.
pub mod State
pub mod Rooms
pub mod Mesh
pub mod Channel
pub mod Signals
pub mod Steps
pub mod Frame
pub mod Quiet
pub mod Orderly
pub mod Reconnect
pub mod Glare
pub mod Listed
pub mod Left
