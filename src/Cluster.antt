-- ===== src/Cluster.antt =====
-- internal/cluster: slot hashing, slot ownership, replication, failover and request routing.
pub mod Hash
pub mod State
pub mod Slots
pub mod Failover
pub mod Replication
pub mod Router
pub mod Gossip
pub mod Takeover
pub mod Migration
