-- ===== src/Model.antt =====
-- The data that the client keeps: wire types, the local database and the reactive state.
pub mod Payload
pub mod Database
pub mod Client
pub mod Task
pub mod Views
