-- ===== src/Session.antt =====
-- Registration, login, logout and password change: web/src/state/session.ts.
pub mod Credentials
pub mod App
pub mod Unlocked
pub mod Left
