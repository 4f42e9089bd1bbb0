-- ===== src/Replication.antt =====
-- src/db/repository.rs and src/cluster: peers, which node stores which bucket, and the outbox.
pub mod Nodes
pub mod Outbox
pub mod Worker
pub mod AntiEntropy
