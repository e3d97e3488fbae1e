-- ===== src/Remote.antt =====
-- internal/remote: the hosted server's sessions.
pub mod Session
