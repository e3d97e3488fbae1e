-- ===== src/Cluster.antt =====
-- internal/cluster: the replicated range directory and the member registry.
pub mod Ranges
pub mod Membership
pub mod State
