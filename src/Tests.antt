-- ===== src/Tests.antt =====
-- The theorems at concrete tables, files, frames, directories and statements.
pub mod Data
pub mod Tables
pub mod Files
pub mod Frames
pub mod Clusters
pub mod Statements
pub mod Entries
pub mod Slots
pub mod Conditions
pub mod Sessions
pub mod Schemas
pub mod Orders
pub mod Selects
pub mod Groups
