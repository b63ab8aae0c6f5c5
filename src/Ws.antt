-- ===== src/Ws.antt =====
-- The WebSocket client: web/src/api/ws.ts.
pub mod Connection
pub mod Steps
pub mod Alive
pub mod Handlers
