-- ===== src/Server.antt =====
-- The server side of the front end, frontend/lib/server.
pub mod Backend
pub mod Redaction
pub mod Http
pub mod Session
