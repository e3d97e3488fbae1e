-- ===== src/Engine.antt =====
-- internal/engine: values, tables with their indexes and scan order, and the statements on them.
pub mod Value
pub mod Index
pub mod Table
pub mod Outcome
pub mod Delete
pub mod Insert
pub mod Update
pub mod Bind
pub mod Fold
pub mod Like
pub mod Literal
pub mod Condition
pub mod Commit
pub mod Schema
pub mod Order
pub mod Select
pub mod Group
pub mod Aggregate
