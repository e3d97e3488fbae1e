-- ===== src/Server.antt =====
-- internal/server: what bounds the requests of a listener.
pub mod Limits
