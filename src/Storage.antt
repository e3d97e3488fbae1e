-- ===== src/Storage.antt =====
-- internal/storage: the framed container of snapshots and of the write-ahead log.
pub mod Format
pub mod Log
